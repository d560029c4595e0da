-- ===== src/Auth/Public.antt =====
-- Which requests pass without a token.
use mathlib.Core.List.{Memᴰ}
use rapina.Prelude.{
  true, ◌&&◌, ◌≡◌, refl, ◌↔◌, ◌⊎◌, inl, inr, List, [], ◌∷◌, if◌then◌else◌, Bytes, bytes_eq,
  bytes_eq_iff, codes, slash, split, starts_with, is_some, arith, Bool-cases, ap, sym, ◌∙◌,
  strip_prefix,
}
use rapina.PathParams.{PathParams, insert, extract_loop, extract_path_params}
use rapina.Auth.{PublicRoutes, all_match, matches_pattern, is_listed, is_public}

extract_loop-some :
    (params : PathParams) (ps qs : List Bytes)
    → is_some (extract_loop params ps qs) ≡ all_match ps qs
unfolding extract_loop strip_prefix
extract_loop-some params [] qs = refl
extract_loop-some params (p ∷ ps) [] = refl
extract_loop-some params ([] ∷ ps) (q ∷ qs) = ground (arith, extract_loop-some params ps qs)
extract_loop-some params ((c ∷ s) ∷ ps) (q ∷ qs) =
    ground (arith, extract_loop-some params ps qs, extract_loop-some (insert s q params).0 ps qs)

-- A pattern of a public route matches a path exactly when the router's extraction of parameters
-- succeeds on them.
pub matches_pattern_lem :
    (pattern path : Bytes)
    → matches_pattern pattern path ≡ is_some (extract_path_params pattern path)
unfolding matches_pattern extract_path_params
matches_pattern_lem pattern path =
    ground (arith, extract_loop-some [] (split slash pattern) (split slash path))

abbrev pub IsPublicRoute : PublicRoutes → Bytes → Bytes → Type 0
IsPublicRoute routes method path =
    (pattern : Bytes) × Memᴰ (method, pattern) routes
    × (is_some (extract_path_params pattern path) ≡ true)

is_listed_to :
    (routes : PublicRoutes) (method path : Bytes)
    → is_listed routes method path ≡ true
    → IsPublicRoute routes method path
unfolding is_listed
is_listed_to [] method path h = cc
is_listed_to ((m, p) ∷ routes) method path h =
    elim (Bool-cases (bytes_eq m method && matches_pattern p path)) [
      | inl e ↦
          let same : m ≡ method = (bytes_eq_iff m method).0 (ground arith) in
          let fits : matches_pattern p path ≡ true = ground arith in
          (p, Memᴰ.head (ap (λ k. (k, p)) (sym same)), sym (matches_pattern_lem p path) ∙ fits)
      | inr e ↦
          let (pattern, m', f) = is_listed_to routes method path (rw e at h) in
          (pattern, Memᴰ.tail m', f)
    ]

is_listed_of :
    (routes : PublicRoutes) (method path pattern : Bytes)
    → Memᴰ (method, pattern) routes
    → is_some (extract_path_params pattern path) ≡ true
    → is_listed routes method path ≡ true
unfolding is_listed
is_listed_of [] method path pattern m f = elim m [ ]
is_listed_of ((m, p) ∷ routes) method path pattern (Memᴰ.head e) f =
    let same : m ≡ method = ap (λ k. k.0) (sym e) in
    let same' : p ≡ pattern = ap (λ k. k.1) (sym e) in
    let fits : matches_pattern p path ≡ true = rw (same') (matches_pattern_lem pattern path ∙ f) in
    let named : bytes_eq m method ≡ true = (bytes_eq_iff m method).1 same in ground arith
is_listed_of ((m, p) ∷ routes) method path pattern (Memᴰ.tail k) f =
    let rest = is_listed_of routes method path pattern k f in ground arith

-- A request is public exactly when its path is one of the framework's own, or a public route of its
-- method has a pattern from which the path's parameters can be extracted.
pub is_public_iff :
    (routes : PublicRoutes) (method path : Bytes)
    → (is_public routes method path ≡ true)
      ↔ ((starts_with (codes "/__rapina") path ≡ true) ⊎ IsPublicRoute routes method path)
unfolding is_public
is_public_iff routes method path = (to, from)
  where
    to :
        (if starts_with (codes "/__rapina") path then true else is_listed routes method path) ≡ true
        → (starts_with (codes "/__rapina") path ≡ true) ⊎ IsPublicRoute routes method path
    to h = elim (Bool-cases (starts_with (codes "/__rapina") path)) [
      | inl e ↦ inl e
      | inr e ↦ inr (is_listed_to routes method path (rw e at h))
    ]

    from :
        (starts_with (codes "/__rapina") path ≡ true) ⊎ IsPublicRoute routes method path
        → (if starts_with (codes "/__rapina") path then true else is_listed routes method path)
          ≡ true
    from (inl e) = rw e refl
    from (inr (pattern, m, f)) =
        let listed = is_listed_of routes method path pattern m f in ground arith
