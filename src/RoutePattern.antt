-- ===== src/RoutePattern.antt =====
-- Text functions on route patterns (rapina/src/router/mod.rs).
pub mod Laws
use rapina.Prelude.{
  ℕ, Bool, true, false, List, [], ◌∷◌, ◌++◌, if◌then◌else◌, ◌==◌, Bytes, slash, colon, split, map,
  any, is_empty, starts_with_byte, ltb, leb,
}

unfoldable pub is_dynamic : Bytes → Bool
unfolding split
is_dynamic pattern = any (starts_with_byte colon) (split slash pattern)

-- 0 for a static segment and 1 for a parameter.
unfoldable pub route_specificity : Bytes → List ℕ
unfolding split
route_specificity pattern =
    map (λ seg. if starts_with_byte colon seg then 1 else 0) (split slash pattern)

-- `Vec<u8>`'s order is lexicographic.
unfoldable pub lex_le : List ℕ → List ℕ → Bool
lex_le [] _ = true
lex_le (_ ∷ _) [] = false
lex_le (a ∷ xs) (b ∷ ys) = if ltb a b then true else if ltb b a then false else lex_le xs ys

unfoldable pub trim_start_matches : ℕ → Bytes → Bytes
trim_start_matches b [] = []
trim_start_matches b (c ∷ s) = let rest = trim_start_matches b s in if c == b then rest else c ∷ s

-- A byte is kept if it is another one or if something is kept behind it.
keep_before : ℕ → ℕ → Bytes → Bytes
keep_before b c [] = if c == b then [] else c ∷ []
keep_before b c (d ∷ s) = c ∷ d ∷ s

unfoldable pub trim_end_matches : ℕ → Bytes → Bytes
unfolding keep_before
trim_end_matches b [] = []
trim_end_matches b (c ∷ s) = keep_before b c (trim_end_matches b s)

unfoldable pub join_group_route_pattern : Bytes → Bytes → Bytes
unfolding trim_start_matches trim_end_matches
join_group_route_pattern prefix route_path =
    let prefix = trim_end_matches slash prefix in
    let route_path = trim_start_matches slash route_path in
    if is_empty prefix
    then slash ∷ route_path
    else if is_empty route_path
    then prefix
    else prefix ++ (slash ∷ route_path)
