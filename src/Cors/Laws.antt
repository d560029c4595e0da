-- ===== src/Cors/Laws.antt =====
-- Which origins the CORS middleware lets in.
use rapina.Prelude.{
  true, false, ◌≡◌, refl, ap, ◌↔◌, inl, inr, List, Option, none, some, if◌then◌else◌, Bytes,
  bytes_eq, bytes_eq_refl, codes, Bool-cases,
}
use rapina.Cors.{
  AllowedOrigins, any_origins, exact, CorsConfig, allow_origin, vary, star, is_listed,
  add_cors_headers, add_origin,
}

vary_other : bytes_eq vary allow_origin ≡ false
unfolding bytes_eq
vary_other = refl

module _ (to_str : Bytes → Option Bytes) where
  -- The value that the configuration allows for a request with this origin.
  pub data Allows : AllowedOrigins → Option Bytes → Bytes → Type 0 where
    anyone : {origin : Option Bytes} → Allows any_origins origin star
    listed :
        {origins : List Bytes} {origin : Bytes}
        → is_listed to_str origins origin ≡ true
        → Allows (exact origins) (some origin) origin

  Allows-any : {origin : Option Bytes} {v : Bytes} → Allows any_origins origin v → star ≡ v
  Allows-any anyone = refl

  Allows-one :
      {origins : List Bytes} {req v : Bytes}
      → Allows (exact origins) (some req) v
      → (req ≡ v) × (is_listed to_str origins req ≡ true)
  Allows-one (listed e) = (refl, e)

  module _ {Headers : Type 0} (get : Bytes → Headers → Option Bytes)
      (insert : Bytes → Bytes → Headers → Headers)
      (get-insert : (k j v : Bytes) (h : Headers)
        → get k (insert j v h) ≡ (if bytes_eq j k then some v else get k h)) where
    origin_iff :
        (allowed : AllowedOrigins) (origin : Option Bytes) (map : Headers) (v : Bytes)
        → get allow_origin map ≡ none
        → (get allow_origin (add_origin to_str insert allowed origin map) ≡ some v)
          ↔ Allows allowed origin v
    origin_iff any_origins origin map v h =
        rw (get-insert allow_origin allow_origin star map, bytes_eq_refl allow_origin)
          ((λ e. let same : star ≡ v = cc in rw (← same) anyone), λ a. ap some (Allows-any a))
    origin_iff (exact origins) none map v h = ((λ e. cc), λ a. elim a [ ])
    origin_iff (exact origins) (some req) map v h =
        elim (Bool-cases (is_listed to_str origins req)) [
          | inl e ↦
              rw (e, get-insert allow_origin allow_origin req map, bytes_eq_refl allow_origin)
                (
                  (λ q. let same : req ≡ v = cc in rw (← same) (listed e)),
                  λ a. ap some (Allows-one a).0,
                )
          | inr e ↦ rw (e, h) ((λ q. cc), λ a. let q = (Allows-one a).1 in cc)
        ]

    -- A response of the chain without the header has it behind the middleware exactly with the value
    -- that the configuration allows for the request's origin.
    pub add_cors_headers_iff :
        (config : CorsConfig) (origin : Option Bytes) (map : Headers) (v : Bytes)
        → get allow_origin map ≡ none
        → (get allow_origin (add_cors_headers to_str insert config origin map) ≡ some v)
          ↔ Allows config.allowed_origins origin v
    unfolding add_cors_headers
    add_cors_headers_iff config origin map v h =
        rw
          (
            get-insert allow_origin vary (codes "Origin")
                (add_origin to_str insert config.allowed_origins origin map),
            vary_other,
          )
          (origin_iff config.allowed_origins origin map v h)
