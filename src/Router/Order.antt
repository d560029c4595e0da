-- ===== src/Router/Order.antt =====
-- The order of the routes after `sort_routes`.
use mathlib.Core.List.Permᴰ
use mathlib.Core.List.{Permᴰ}
use rapina.Prelude.{
  bytes_eq, bytes_eq_iff, Bool, insert_by, sort_by, IsOrdered, sort_by-IsOrdered, Bytes, slash,
  colon, split, starts_with_byte, map, sym, ◌∙◌, ℕ, true, false, ◌≡◌, refl, List, [], ◌∷◌,
  if◌then◌else◌, arith, inl, inr, Bool-cases, All,
}
use rapina.Trie.Node.{Method}
use rapina.RoutePattern.{route_specificity, lex_le}
use rapina.Router.{Route, Router, sort_routes, by_specificity}

pub lex_le-total : (xs ys : List ℕ) → lex_le xs ys ≡ false → lex_le ys xs ≡ true
unfolding lex_le
lex_le-total [] ys h = cc
lex_le-total (a ∷ xs) [] h = refl
lex_le-total (a ∷ xs) (b ∷ ys) h = ground (arith, lex_le-total xs ys)

pub lex_le_trans :
    (xs ys zs : List ℕ) → lex_le xs ys ≡ true → lex_le ys zs ≡ true → lex_le xs zs ≡ true
unfolding lex_le
lex_le_trans [] ys zs h k = refl
lex_le_trans (a ∷ xs) [] zs h k = cc
lex_le_trans (a ∷ xs) (b ∷ ys) [] h k = cc
lex_le_trans (a ∷ xs) (b ∷ ys) (c ∷ zs) h k = ground (arith, lex_le_trans xs ys zs)

abbrev kinds : List Bytes → List ℕ
kinds segs = map (λ seg. if starts_with_byte colon seg then 1 else 0) segs

-- The segments of a pattern against those of another.
pub data Wins : List Bytes → List Bytes → Type 0 where
  shorter : {seg : Bytes} {segs : List Bytes} → Wins [] (seg ∷ segs)
  static_first :
      {seg seg' : Bytes} {segs segs' : List Bytes}
      → starts_with_byte colon seg ≡ false
      → starts_with_byte colon seg' ≡ true
      → Wins (seg ∷ segs) (seg' ∷ segs')
  later :
      {seg seg' : Bytes} {segs segs' : List Bytes}
      → starts_with_byte colon seg ≡ starts_with_byte colon seg'
      → Wins segs segs'
      → Wins (seg ∷ segs) (seg' ∷ segs')

kinds_order :
    (segs segs' : List Bytes) → Wins segs segs' → lex_le (kinds segs') (kinds segs) ≡ false
unfolding lex_le
kinds_order [] [] w = elim w [ ]
kinds_order (seg ∷ segs) [] w = elim w [ ]
kinds_order [] (seg ∷ segs') shorter = refl
kinds_order (seg ∷ segs) (seg' ∷ segs') (static_first e e') = rw (e, e') refl
kinds_order (seg ∷ segs) (seg' ∷ segs') (later e w) =
    elim (starts_with_byte colon seg')
        as (λ b.
          starts_with_byte colon seg ≡ b
          → lex_le ((if b then 1 else 0) ∷ kinds segs')
              ((if starts_with_byte colon seg then 1 else 0) ∷ kinds segs)
            ≡ false) [
              | true ↦ λ e. rw e (kinds_order segs segs' w)
              | false ↦ λ e. rw e (kinds_order segs segs' w)
            ]
      e

insert_by-Perm :
    {A : Type 0} (le : A → A → Bool) (a : A) (xs : List A) → Permᴰ (a ∷ xs) (insert_by le a xs)
insert_by-Perm le a [] = Permᴰ.refl (a ∷ [])
insert_by-Perm le a (x ∷ xs) = elim (Bool-cases (le a x)) [
  | inl e ↦ rw e (Permᴰ.refl (a ∷ x ∷ xs))
  | inr e ↦ rw e (Permᴰ.trans (Permᴰ.swap refl refl) (Permᴰ.cons refl (insert_by-Perm le a xs)))
]

sort_by-Perm : {A : Type 0} (le : A → A → Bool) (xs : List A) → Permᴰ xs (sort_by le xs)
sort_by-Perm le [] = Permᴰ.nil
sort_by-Perm le (x ∷ xs) =
    Permᴰ.trans (Permᴰ.cons refl (sort_by-Perm le xs)) (insert_by-Perm le x (sort_by le xs))

abbrev pub only : {A : Type 0} → (A → Bool) → List A → List A
only test [] = []
only test (x ∷ xs) = let rest = only test xs in if test x then x ∷ rest else rest

-- A sort that is stable: elements that pass a test in common, and are then not above each other,
-- keep their order.
module _ {A : Type 0} (le : A → A → Bool) (test : A → Bool)
    (level : (a b : A) → test a ≡ true → test b ≡ true → le a b ≡ true) where
  only-insert_by : (a : A) (xs : List A) → only test (insert_by le a xs) ≡ only test (a ∷ xs)
  only-insert_by a [] = refl
  only-insert_by a (x ∷ xs) =
      let rest = only-insert_by a xs in
      elim (Bool-cases (le a x)) [
        | inl e ↦ rw e refl
        | inr e ↦ elim (Bool-cases (test a)) [
          | inr f ↦
              let same : only test (insert_by le a xs) ≡ only test xs = rw f at rest in
              rw (e, f, same) refl
          | inl f ↦ elim (Bool-cases (test x)) [
            | inl g ↦ cc (sym e ∙ level a x f g)
            | inr g ↦ rw (e, f, g) (rw f at rest)
          ]
        ]
      ]

  only-sort_by : (xs : List A) → only test (sort_by le xs) ≡ only test xs
  only-sort_by [] = refl
  only-sort_by (x ∷ xs) = only-insert_by x (sort_by le xs) ∙ rw (only-sort_by xs) refl

lex_le_refl : (xs : List ℕ) → lex_le xs xs ≡ true
unfolding lex_le
lex_le_refl [] = refl
lex_le_refl (a ∷ xs) = ground (arith, lex_le_refl xs)

module _ {Json Handler : Type 0} where
  -- The route's pattern has this specificity.
  abbrev pub has_specificity : List ℕ → (Method × Route Json Handler) → Bool
  has_specificity key r = bytes_eq (route_specificity r.1.pattern) key

  specificity-level :
      (key : List ℕ) (r q : Method × Route Json Handler)
      → has_specificity key r ≡ true
      → has_specificity key q ≡ true
      → by_specificity r q ≡ true
  specificity-level key r q e f =
      let first = (bytes_eq_iff (route_specificity r.1.pattern) key).0 e in
      let second = (bytes_eq_iff (route_specificity q.1.pattern) key).0 f in
      rw (first, second) (lex_le_refl key)

  -- No route comes before one whose pattern wins against its own.
  abbrev pub NotBehind : (Method × Route Json Handler) → (Method × Route Json Handler) → Type 0
  NotBehind r q = ¬ Wins (split slash q.1.pattern) (split slash r.1.pattern)

  abbrev pub NoWinners : List (Method × Route Json Handler) → Type 0
  NoWinners [] = Unit
  NoWinners (r ∷ routes) = All (NotBehind r) routes × NoWinners routes

  ordered_behind :
      (r : Method × Route Json Handler) (routes : List (Method × Route Json Handler))
      → All (λ q. by_specificity r q ≡ true) routes
      → All (NotBehind r) routes
  unfolding route_specificity
  ordered_behind r [] h = tt
  ordered_behind r (q ∷ routes) (h, hs) = (
    λ w. cc (sym h ∙ kinds_order (split slash q.1.pattern) (split slash r.1.pattern) w),
    ordered_behind r routes hs,
  )

  specificity-total :
      (r q : Method × Route Json Handler) → by_specificity r q ≡ false → by_specificity q r ≡ true
  specificity-total r q h =
      lex_le-total (route_specificity r.1.pattern) (route_specificity q.1.pattern) h

  specificity_trans :
      (r q s : Method × Route Json Handler)
      → by_specificity r q ≡ true
      → by_specificity q s ≡ true
      → by_specificity r s ≡ true
  specificity_trans r q s h k =
      lex_le_trans (route_specificity r.1.pattern) (route_specificity q.1.pattern)
        (route_specificity s.1.pattern) h k

  ordered-NoWinners :
      (routes : List (Method × Route Json Handler))
      → IsOrdered by_specificity specificity-total specificity_trans routes
      → NoWinners routes
  ordered-NoWinners [] h = tt
  ordered-NoWinners (r ∷ routes) (h, hs) = (ordered_behind r routes h, ordered-NoWinners routes hs)

  -- After `sort_routes` the router has the same routes, and no route comes before one whose pattern
  -- wins against its own: of two patterns the one wins that has a static segment, where the other has
  -- a parameter, behind segments of the same kinds, or that ends where the other goes on. The routes
  -- of one specificity keep their order.
  pub sort_routes_lem :
      (router : Router Json Handler) (key : List ℕ)
      → Permᴰ router.routes (sort_routes router).routes
        × NoWinners (sort_routes router).routes
        × (only (has_specificity key) (sort_routes router).routes
            ≡ only (has_specificity key) router.routes)
  unfolding sort_routes
  sort_routes_lem router key = (
    sort_by-Perm by_specificity router.routes,
    ordered-NoWinners (sort_by by_specificity router.routes)
        (sort_by-IsOrdered by_specificity specificity-total specificity_trans router.routes),
    only-sort_by by_specificity (has_specificity key) (specificity-level key) router.routes,
  )
