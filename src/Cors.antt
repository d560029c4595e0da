-- ===== src/Cors.antt =====
-- The CORS middleware (rapina/src/middleware/cors.rs). Header names and values are their texts; a
-- header map with its `insert` and the text of a header value (`to_str`) are parameters, and so is the
-- rest of the chain (`next.run`).
pub mod Laws
use rapina.Prelude.{
  ℕ, Bool, List, [], ◌∷◌, ◌++◌, Option, none, some, if◌then◌else◌, Bytes, bytes_eq, codes, any,
  join, unwrap_or,
}
use rapina.Trie.Node.{Method}

pub data AllowedHeaders : Type 0 where
  any_headers : AllowedHeaders
  headers : List Bytes → AllowedHeaders

pub data AllowedMethods : Type 0 where
  any_methods : AllowedMethods
  methods : List Method → AllowedMethods

pub data AllowedOrigins : Type 0 where
  any_origins : AllowedOrigins
  exact : List Bytes → AllowedOrigins

pub record CorsConfig : Type 0 where
  pub allowed_origins : AllowedOrigins
  pub allowed_methods : AllowedMethods
  pub allowed_headers : AllowedHeaders

unfoldable pub permissive : CorsConfig
permissive = record {
  allowed_origins = any_origins;
  allowed_methods = any_methods;
  allowed_headers = any_headers;
}

unfoldable pub with_origins : List Bytes → CorsConfig
with_origins origins = record {
  allowed_methods = methods (
      codes "GET"
      ∷ codes "POST"
      ∷ codes "PUT"
      ∷ codes "PATCH"
      ∷ codes "DELETE"
      ∷ codes "OPTIONS"
      ∷ []);
  allowed_origins = exact origins;
  allowed_headers = headers (codes "accept" ∷ codes "authorization" ∷ []);
}

abbrev pub allow_origin : Bytes
allow_origin = codes "access-control-allow-origin"

abbrev pub allow_methods : Bytes
allow_methods = codes "access-control-allow-methods"

abbrev pub allow_headers : Bytes
allow_headers = codes "access-control-allow-headers"

abbrev pub vary : Bytes
vary = codes "vary"

abbrev pub star : Bytes
star = codes "*"

abbrev methods_value : AllowedMethods → Bytes
methods_value any_methods = star
methods_value (methods ms) = join (codes ", ") ms

abbrev headers_value : AllowedHeaders → Bytes
headers_value any_headers = star
headers_value (headers hs) = join (codes ", ") hs

module _ (to_str : Bytes → Option Bytes) where
  -- The test of an origin against the list.
  abbrev pub is_listed : List Bytes → Bytes → Bool
  is_listed origins req_origin =
      let origin_str = unwrap_or (to_str req_origin) [] in any (λ o. bytes_eq o origin_str) origins

  -- The `match` on the allowed origins in `preflight_response`: the header it puts in the response.
  abbrev preflight_origin : AllowedOrigins → Option Bytes → List (Bytes × Bytes)
  preflight_origin any_origins origin = (allow_origin, star) ∷ []
  preflight_origin (exact origins) none = []
  preflight_origin (exact origins) (some req_origin) =
      if is_listed origins req_origin then (allow_origin, req_origin) ∷ [] else []

  -- The status of the preflight response and its headers, in order.
  unfoldable pub preflight_response : CorsConfig → Option Bytes → ℕ × List (Bytes × Bytes)
  unfolding join
  preflight_response config origin = (
    204,
    preflight_origin config.allowed_origins origin
        ++ (allow_methods, methods_value config.allowed_methods)
          ∷ (allow_headers, headers_value config.allowed_headers)
          ∷ (vary, codes "Origin")
          ∷ [],
  )

  module _ {Headers : Type 0} (insert : Bytes → Bytes → Headers → Headers) where
    abbrev pub add_origin : AllowedOrigins → Option Bytes → Headers → Headers
    add_origin any_origins origin map = insert allow_origin star map
    add_origin (exact origins) none map = map
    add_origin (exact origins) (some req_origin) map =
        if is_listed origins req_origin then insert allow_origin req_origin map else map

    unfoldable pub add_cors_headers : CorsConfig → Option Bytes → Headers → Headers
    add_cors_headers config origin map =
        insert vary (codes "Origin") (add_origin config.allowed_origins origin map)

    -- The preflight response, or that of the chain with its headers changed.
    pub data Answer : Type 0 where
      preflight : ℕ × List (Bytes × Bytes) → Answer
      forwarded : Headers → Answer

    unfoldable pub handle : CorsConfig → Method → Option Bytes → (next : Headers) → Answer
    unfolding preflight_response add_cors_headers
    handle config method origin next =
        if bytes_eq method (codes "OPTIONS")
        then preflight (preflight_response config origin)
        else forwarded (add_cors_headers config origin next)
