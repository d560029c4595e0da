-- ===== src/TrieRouter/Slots.antt =====
-- Each slot of the router is the trie of the dynamic routes of its method.
use rapina.Prelude.{
  ℕ, zero, suc, Bool, true, false, ◌&&◌, ◌≡◌, ◌<◌, refl, sym, ap, ◌∙◌, ◌⊎◌, inl, inr, List, [], ◌∷◌,
  Option, none, some, Bytes, length, get_elem?, set, ◌==◌, if◌then◌else◌, unwrap_or, >>=-eq-some,
  Bool-cases, Option-cases, bytes_eq, bytes_eq_iff, ==_refl, arith,
}
use rapina.Trie.Node.{Method, Arena, index_in, method_index, standard_methods, new_trie}
use rapina.Trie.Distinct.{All-get}
use rapina.Trie.Insert
use rapina.Trie.Insert.Arenas.{length-set}
use rapina.Trie.Correct.{inserts}
use rapina.RoutePattern.{is_dynamic}
use rapina.TrieRouter.{TrieRouter, add_route, add_routes, no_tries}

index_in-some :
    (m : Method) (ss : List Bytes) (i : ℕ) → index_in m ss ≡ some i → get_elem? ss i ≡ some m
unfolding index_in
index_in-some m [] i h = cc
index_in-some m (s ∷ ss) i h = elim (Bool-cases (bytes_eq m s)) [
  | inl e ↦
      let same : m ≡ s = (bytes_eq_iff m s).0 e in
      let first : 0 ≡ i = cc (rw e at h) in rw (← first, same) refl
  | inr e ↦ elim (Option-cases (index_in m ss)) [
    | inl f ↦ cc (rw (e, f) at h)
    | inr (j, f) ↦
        let next : suc j ≡ i = cc (rw (e, f) at h) in rw (← next) (index_in-some m ss j f)
  ]
]

get_elem?-bound :
    {A : Type 0} (xs : List A) (i : ℕ) (a : A) → get_elem? xs i ≡ some a → i < length xs
get_elem?-bound [] i a h = cc
get_elem?-bound (x ∷ xs) zero a h = omega arith
get_elem?-bound (x ∷ xs) (suc i) a h = omega (arith, get_elem?-bound xs i a h)

pub method_index-bound : (m : Method) (mi : ℕ) → method_index m ≡ some mi → mi < 9
unfolding method_index
method_index-bound m mi h =
    get_elem?-bound standard_methods mi m (index_in-some m standard_methods mi h)

pub method_index-injective :
    (m m' : Method) (mi : ℕ) → method_index m ≡ some mi → method_index m' ≡ some mi → m ≡ m'
unfolding method_index
method_index-injective m m' mi h h' =
    let e = index_in-some m standard_methods mi h in
    let e' = index_in-some m' standard_methods mi h' in cc (sym e ∙ e')

unfoldable pub in_slot : ℕ → Method → Bool
in_slot mi m = elim (method_index m) [ none ↦ false | some j ↦ j == mi ]

in_slot-some : (mi j : ℕ) (m : Method) → method_index m ≡ some j → in_slot mi m ≡ (j == mi)
unfolding in_slot
in_slot-some mi j m e = rw (e, in_slot) refl

-- The dynamic patterns of the method with an index, each with its route's index, from `idx` on.
abbrev pub of_slot : ℕ → ℕ → List (Method × Bytes) → List (Bytes × ℕ)
of_slot mi idx [] = []
of_slot mi idx ((m, p) ∷ routes) =
    let rest = of_slot mi (suc idx) routes in
    if is_dynamic p && in_slot mi m then (p, idx) ∷ rest else rest

-- What the insertions of a list make of a slot.
abbrev Fills : List (Bytes × ℕ) → Option Arena → Option Arena → Type 0
Fills [] slot slot' = slot ≡ slot'
Fills ((p, idx) ∷ l) slot slot' =
    (t : Arena) × (Insert.insert (unwrap_or slot new_trie) p idx ≡ some t) × Fills l (some t) slot'

get_elem?-set :
    {A : Type 0} (xs : List A) (i j : ℕ) (v a : A)
    → get_elem? (set xs i v) j ≡ some a
    → ((i ≡ j) × (v ≡ a)) ⊎ ((i == j ≡ false) × (get_elem? xs j ≡ some a))
get_elem?-set [] i j v a h = cc
get_elem?-set (x ∷ xs) zero zero v a h = inl (refl, cc)
get_elem?-set (x ∷ xs) zero (suc j) v a h = inr (ground arith, h)
get_elem?-set (x ∷ xs) (suc i) zero v a h = inr (ground arith, h)
get_elem?-set (x ∷ xs) (suc i) (suc j) v a h = elim (get_elem?-set xs i j v a h) [
  | inl (e, f) ↦ inl (ap suc e, f)
  | inr (e, f) ↦ inr (ground arith, f)
]

-- What one route makes of a slot.
abbrev Step : Bool → Bytes → ℕ → Option Arena → Option Arena → Type 0
Step false p idx slot slot' = slot ≡ slot'
Step true p idx slot slot' =
    (t : Arena) × (Insert.insert (unwrap_or slot new_trie) p idx ≡ some t) × (some t ≡ slot')

Fills-Step :
    (b : Bool) (p : Bytes) (idx : ℕ) (l : List (Bytes × ℕ)) (before slot slot' : Option Arena)
    → Step b p idx before slot
    → Fills l slot slot'
    → Fills (if b then (p, idx) ∷ l else l) before slot'
Fills-Step false p idx l before slot slot' same rest = rw same rest
Fills-Step true p idx l before slot slot' (t, grows, same) rest = (t, grows, rw same rest)

add_route_slot :
    (mi idx : ℕ) (m : Method) (p : Bytes) (methods after : TrieRouter) (slot' : Option Arena)
    → add_route idx m p methods ≡ some after
    → get_elem? after mi ≡ some slot'
    → (slot : Option Arena) × (get_elem? methods mi ≡ some slot)
      × Step (is_dynamic p && in_slot mi m) p idx slot slot'
unfolding add_route
add_route_slot mi idx m p methods after slot' h stored = elim (Bool-cases (is_dynamic p)) [
  | inr e ↦ let same : methods ≡ after = cc (rw e at h) in (slot', rw same stored, rw e refl)
  | inl e ↦
      let (j, method, h') = >>=-eq-some (method_index m) _ (rw e at h) in
      let (slot, before, h'') = >>=-eq-some (get_elem? methods j) _ h' in
      let (t, grows, h3) = >>=-eq-some (Insert.insert (unwrap_or slot new_trie) p idx) _ h'' in
      let same : set methods j (some t) ≡ after = cc in
      elim (get_elem?-set methods j mi (some t) slot' (rw same stored)) [
        | inl (here, value) ↦
            let yes : in_slot mi m ≡ true = in_slot-some mi j m method ∙ rw here (==_refl mi) in
            (slot, rw (← here) before, rw (e, yes) (t, grows, value))
        | inr (other, kept) ↦
            let no : in_slot mi m ≡ false = in_slot-some mi j m method ∙ other in
            (slot', kept, rw (e, no) refl)
      ]
]

add_routes_slot :
    (mi idx : ℕ) (routes : List (Method × Bytes)) (methods after : TrieRouter)
    (slot' : Option Arena)
    → add_routes idx routes methods ≡ some after
    → get_elem? after mi ≡ some slot'
    → (slot : Option Arena) × (get_elem? methods mi ≡ some slot)
      × Fills (of_slot mi idx routes) slot slot'
unfolding add_routes
add_routes_slot mi idx [] methods after slot' h stored =
    let same : methods ≡ after = cc in (slot', rw same stored, refl)
add_routes_slot mi idx ((m, p) ∷ routes) methods after slot' h stored =
    let (methods', first, others) =
      >>=-eq-some (add_route idx m p methods) (λ t. add_routes (suc idx) routes t) h in
    let (slot, between, rest) =
      add_routes_slot mi (suc idx) routes methods' after slot' others stored in
    let (before, was, step) = add_route_slot mi idx m p methods methods' slot first between in
    (
      before,
      was,
      Fills-Step (is_dynamic p && in_slot mi m) p idx (of_slot mi (suc idx) routes) before slot
          slot' step rest,
    )

-- A slot holds the trie of a list of patterns, or none of the patterns is there.
pub data Holds (l : List (Bytes × ℕ)) : Option Arena → Type 0 where
  unused : l ≡ [] → Holds l none
  holds : {t : Arena} → inserts l new_trie ≡ some t → Holds l (some t)

Fills-some :
    (l : List (Bytes × ℕ)) (a : Arena) (slot' : Option Arena)
    → Fills l (some a) slot'
    → (t : Arena) × (slot' ≡ some t) × (inserts l a ≡ some t)
unfolding inserts
Fills-some [] a slot' e = (a, sym e, refl)
Fills-some ((p, idx) ∷ l) a slot' (t, grows, rest) =
    let (t', e, runs) = Fills-some l t slot' rest in (t', e, rw grows runs)

Fills-none : (l : List (Bytes × ℕ)) (slot' : Option Arena) → Fills l none slot' → Holds l slot'
unfolding inserts
Fills-none [] slot' e = rw (← e) (unused refl)
Fills-none ((p, idx) ∷ l) slot' (t, grows, rest) =
    let (t', e, runs) = Fills-some l t slot' rest in rw e (holds (rw grows runs))

empty_slot : (mi : ℕ) (slot : Option Arena) → get_elem? no_tries mi ≡ some slot → slot ≡ none
empty_slot mi slot h =
    All-get (λ s. s ≡ none) no_tries mi slot
      (refl, (refl, (refl, (refl, (refl, (refl, (refl, (refl, (refl, tt))))))))) h

add_route-length :
    (idx : ℕ) (m : Method) (p : Bytes) (methods after : TrieRouter)
    → add_route idx m p methods ≡ some after
    → length after ≡ length methods
unfolding add_route
add_route-length idx m p methods after h = elim (Bool-cases (is_dynamic p)) [
  | inr e ↦ let same : methods ≡ after = cc (rw e at h) in rw same refl
  | inl e ↦
      let (j, method, h') = >>=-eq-some (method_index m) _ (rw e at h) in
      let (slot, before, h'') = >>=-eq-some (get_elem? methods j) _ h' in
      let (t, grows, h3) = >>=-eq-some (Insert.insert (unwrap_or slot new_trie) p idx) _ h'' in
      let same : set methods j (some t) ≡ after = cc in rw (← same) (length-set methods j (some t))
]

pub add_routes-length :
    (idx : ℕ) (routes : List (Method × Bytes)) (methods after : TrieRouter)
    → add_routes idx routes methods ≡ some after
    → length after ≡ length methods
unfolding add_routes
add_routes-length idx [] methods after h = let same : methods ≡ after = cc in rw same refl
add_routes-length idx ((m, p) ∷ routes) methods after h =
    let (methods', first, others) =
      >>=-eq-some (add_route idx m p methods) (λ t. add_routes (suc idx) routes t) h in
    add_routes-length (suc idx) routes methods' after others
    ∙ add_route-length idx m p methods methods' first

pub slot_of_routes :
    (mi : ℕ) (routes : List (Method × Bytes)) (after : TrieRouter) (slot' : Option Arena)
    → add_routes 0 routes no_tries ≡ some after
    → get_elem? after mi ≡ some slot'
    → Holds (of_slot mi 0 routes) slot'
slot_of_routes mi routes after slot' h stored =
    let (slot, was, fills) = add_routes_slot mi 0 routes no_tries after slot' h stored in
    Fills-none (of_slot mi 0 routes) slot' (rw (empty_slot mi slot was) at fills)
