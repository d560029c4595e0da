-- ===== src/Auth.antt =====
-- Public routes and the claims of a token (rapina/src/auth/mod.rs). The reading of the clock is an
-- argument, in seconds.
pub mod Public
pub mod Middleware
use rapina.Prelude.{
  ℕ, Bool, true, false, ◌&&◌, ◌||◌, List, [], ◌∷◌, ◌++◌, if◌then◌else◌, Bytes, bytes_eq, codes,
  slash, colon, split, starts_with, starts_with_byte, length, ltb, ◌==◌, ◌+◌,
}

pub record Claims : Type 0 where
  pub sub : Bytes
  pub exp : ℕ
  pub iat : ℕ

unfoldable pub new_claims : (now : ℕ) → Bytes → ℕ → Claims
new_claims now sub expires_in_secs = record { sub = sub; exp = now + expires_in_secs; iat = now }

unfoldable pub is_expired : (now : ℕ) → Claims → Bool
is_expired now claims = ltb claims.exp now

abbrev pub PublicRoutes : Type 0
PublicRoutes = List (Bytes × Bytes)

unfoldable pub add : Bytes → Bytes → PublicRoutes → PublicRoutes
add method path routes = routes ++ (method, path) ∷ []

-- The `all` over the zipped parts.
abbrev pub all_match : List Bytes → List Bytes → Bool
all_match (pattern_part ∷ pattern_parts) (path_part ∷ path_parts) =
    let others = all_match pattern_parts path_parts in
    (starts_with_byte colon pattern_part || bytes_eq pattern_part path_part) && others
all_match _ _ = true

unfoldable pub matches_pattern : Bytes → Bytes → Bool
unfolding split
matches_pattern pattern path =
    if length (split slash pattern) == length (split slash path)
    then all_match (split slash pattern) (split slash path)
    else false

unfoldable pub is_listed : PublicRoutes → Bytes → Bytes → Bool
unfolding matches_pattern
is_listed [] method path = false
is_listed ((m, p) ∷ routes) method path =
    bytes_eq m method && matches_pattern p path || is_listed routes method path

unfoldable pub is_public : PublicRoutes → Bytes → Bytes → Bool
unfolding is_listed
is_public routes method path =
    if starts_with (codes "/__rapina") path then true else is_listed routes method path
