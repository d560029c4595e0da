-- ===== src/Auth/Middleware.antt =====
-- The auth middleware (rapina/src/auth/middleware.rs) and `AuthConfig::decode`. The `decode` of the
-- jsonwebtoken library and the text of a header's value (`to_str`) are parameters.
pub mod Tests
use rapina.Prelude.{
  Bool, true, false, ◌≡◌, ◌≢◌, ◌⊎◌, refl, sym, ◌∙◌, inl, inr, Option, none, some, if◌then◌else◌,
  Bytes, codes, ◌++◌, strip_prefix, Bool-cases, Option-cases, ◌>>=◌,
}
use rapina.Error
use rapina.Error.{Error, Result, ok, err}
use rapina.Auth.{Claims, PublicRoutes, is_public}

-- The kinds of error that `decode` tells apart, the last with its text.
pub data DecodeError : Type 0 where
  expired_signature : DecodeError
  invalid_token : DecodeError
  other : Bytes → DecodeError

pub record CurrentUser : Type 0 where
  pub id : Bytes
  pub claims : Claims

pub record Request : Type 0 where
  pub method : Bytes
  pub path : Bytes
  pub authorization : Option Bytes

-- The rest of the chain runs, with a user in the request's extensions or without, or the response
-- is an error's.
pub data Outcome (Json : Type 0) : Type 0 where
  runs : Option CurrentUser → Outcome Json
  refuses : Error Json → Outcome Json

unfoldable pub extract_bearer_token : (Bytes → Option Bytes) → Request → Option Bytes
unfolding strip_prefix
extract_bearer_token to_str req = do
  v ← req.authorization
  s ← to_str v
  strip_prefix (codes "Bearer ") s

module _ {Json : Type 0} where
  unfoldable pub decode_error : DecodeError → Error Json
  unfolding Error.new
  decode_error expired_signature = Error.unauthorized (codes "token expired")
  decode_error invalid_token = Error.unauthorized (codes "invalid token")
  decode_error (other text) = Error.unauthorized (codes "token validation failed: " ++ text)

  unfoldable pub decode : Result Claims DecodeError → Result Claims (Error Json)
  unfolding decode_error
  decode (ok claims) = ok claims
  decode (err e) = err (decode_error e)

  abbrev pub with_claims : Result Claims (Error Json) → Outcome Json
  with_claims (ok claims) = runs (some (record { id = claims.sub; claims = claims }))
  with_claims (err e) = refuses e

module _ (library_decode : Bytes → Result Claims DecodeError) (to_str : Bytes → Option Bytes) where
  -- Whom the rest of the chain may run for.
  pub data Admits (public_routes : PublicRoutes) (req : Request) : Option CurrentUser → Type 0 where
    public : is_public public_routes req.method req.path ≡ true → Admits public_routes req none
    bearer :
        {token : Bytes} {claims : Claims}
        → is_public public_routes req.method req.path ≡ false
        → extract_bearer_token to_str req ≡ some token
        → library_decode token ≡ ok claims
        → Admits public_routes req (some (record { id = claims.sub; claims = claims }))

  module _ {Json : Type 0} where
    unfoldable pub handle : PublicRoutes → Request → Outcome Json
    unfolding is_public extract_bearer_token decode Error.new
    handle public_routes req =
        if is_public public_routes req.method req.path
        then runs none
        else elim (extract_bearer_token to_str req) [
          | none ↦ refuses (Error.unauthorized (codes "missing authorization header"))
          | some token ↦ with_claims (decode (library_decode token))
        ]

    decoded :
        (public_routes : PublicRoutes) (req : Request) (token : Bytes)
        (o : Result Claims DecodeError)
        → is_public public_routes req.method req.path ≡ false
        → extract_bearer_token to_str req ≡ some token
        → library_decode token ≡ o
        → ((user : Option CurrentUser) × (with_claims {Json = Json} (decode o) ≡ runs user)
            × Admits public_routes req user)
          ⊎ ((e : Error Json) × (with_claims (decode o) ≡ refuses e)
              × (e.status ≡ 401)
              × ((claims : Claims) → library_decode token ≢ ok claims))
    unfolding decode decode_error Error.new
    decoded public_routes req token (ok claims) closed bears found =
        inl (some (record { id = claims.sub; claims = claims }), refl, bearer closed bears found)
    decoded public_routes req token (err expired_signature) closed bears found =
        inr (Error.unauthorized (codes "token expired"), refl, refl, λ claims k. cc (sym found ∙ k))
    decoded public_routes req token (err invalid_token) closed bears found =
        inr (Error.unauthorized (codes "invalid token"), refl, refl, λ claims k. cc (sym found ∙ k))
    decoded public_routes req token (err (other text)) closed bears found = inr (
      Error.unauthorized (codes "token validation failed: " ++ text),
      refl,
      refl,
      λ claims k. cc (sym found ∙ k),
    )

    -- The middleware runs the rest of the chain for a request of a public route, without a user, or
    -- for one with a bearer token that decodes, with the user of its claims. Any other request is
    -- one of no public route whose token is missing or does not decode, and is refused with 401.
    pub handle_lem :
        (public_routes : PublicRoutes) (req : Request)
        → ((user : Option CurrentUser) × (handle public_routes req ≡ runs user)
            × Admits public_routes req user)
          ⊎ ((e : Error Json) × (handle public_routes req ≡ refuses e)
              × (e.status ≡ 401)
              × (is_public public_routes req.method req.path ≡ false)
              × ((token : Bytes) (claims : Claims)
                  → extract_bearer_token to_str req ≡ some token
                  → library_decode token ≢ ok claims))
    unfolding handle Error.new
    handle_lem public_routes req = elim (Bool-cases (is_public public_routes req.method req.path)) [
      | inl e ↦ inl (none, rw (e, handle) refl, public e)
      | inr e ↦ elim (Option-cases (extract_bearer_token to_str req)) [
        | inl f ↦ inr (
          Error.unauthorized (codes "missing authorization header"),
          rw (e, f, handle) refl,
          refl,
          e,
          λ token claims k. cc (sym f ∙ k),
        )
        | inr (token, f) ↦ elim (decoded public_routes req token (library_decode token) e f refl) [
          | inl (user, runs_so, admits) ↦ inl (user, rw (e, f, handle) runs_so, admits)
          | inr (error, refused, status, never) ↦ inr (
            error,
            rw (e, f, handle) refused,
            status,
            e,
            λ token' claims k l.
                let same : token ≡ token' = cc (sym f ∙ k) in never claims (rw same l),
          )
        ]
      ]
    ]
