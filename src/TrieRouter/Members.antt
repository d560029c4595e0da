-- ===== src/TrieRouter/Members.antt =====
-- The routes whose patterns a slot holds.
use mathlib.Core.List.{Memᴰ}
use rapina.Prelude.{
  ℕ, zero, suc, true, ◌&&◌, ◌≡◌, ◌+◌, refl, ap, ◌∙◌, inl, inr, List, [], ◌∷◌, some, Bytes, All,
  get_elem?, ◌==◌, Bool-cases, Option-cases, arith,
}
use rapina.Trie.Node.{Method, method_index}
use rapina.Trie.Correct.{AllDistinct, DistinctNames}
use rapina.RoutePattern.{is_dynamic}
use rapina.TrieRouter.Slots.{of_slot, in_slot, method_index-injective}

-- The route with an index is this one, and it has a parameter.
pub record IsDynamicRoute (routes : List (Method × Bytes)) (method pattern : Bytes) (v : ℕ)
    : Type 0 where
  pub listed : get_elem? routes v ≡ some (method, pattern)
  pub dynamic : is_dynamic pattern ≡ true

-- No pattern of the routes names a parameter twice.
abbrev pub NoRepeats : List (Method × Bytes) → Type 0
NoRepeats routes = All (λ r. DistinctNames r.1) routes

pub of_slot-AllDistinct :
    (mi idx : ℕ) (routes : List (Method × Bytes))
    → NoRepeats routes
    → AllDistinct (of_slot mi idx routes)
of_slot-AllDistinct mi idx [] d = tt
of_slot-AllDistinct mi idx ((m, p) ∷ routes) (d, ds) =
    let rest = of_slot-AllDistinct mi (suc idx) routes ds in
    elim (Bool-cases (is_dynamic p && in_slot mi m)) [ inl e ↦ rw e (d, rest) | inr e ↦ rw e rest ]

in_slot-true : (mi : ℕ) (m : Method) → in_slot mi m ≡ true → method_index m ≡ some mi
unfolding in_slot
in_slot-true mi m h = elim (Option-cases (method_index m)) [
  | inl e ↦ cc (rw (e, in_slot) at h)
  | inr (j, e) ↦
      let b : j == mi ≡ true = rw (e, in_slot) at h in
      let same : j ≡ mi = ground arith in e ∙ ap some same
]

in_slot_yes : (mi : ℕ) (m : Method) → method_index m ≡ some mi → in_slot mi m ≡ true
unfolding in_slot
in_slot_yes mi m h = rw (h, in_slot) (ground arith)

module _ (method : Method) (mi : ℕ) (index : method_index method ≡ some mi) where
  chosen :
      (idx v : ℕ) (p m' p' : Bytes) (routes : List (Method × Bytes))
      → is_dynamic p' && in_slot mi m' ≡ true
      → p ≡ p'
      → v ≡ idx
      → (k : ℕ) × (v ≡ idx + k) × IsDynamicRoute ((m', p') ∷ routes) method p k
  chosen idx v p m' p' routes e same_p same_v =
      let dyn : is_dynamic p' ≡ true = ground arith in
      let here : in_slot mi m' ≡ true = ground arith in
      let same_method = method_index-injective m' method mi (in_slot-true mi m' here) index in
      (
        zero,
        omega arith,
        record { listed = rw (same_method, same_p) refl; dynamic = rw same_p dyn },
      )

  of_slot_sound :
      (idx v : ℕ) (p : Bytes) (routes : List (Method × Bytes))
      → Memᴰ (p, v) (of_slot mi idx routes)
      → (k : ℕ) × (v ≡ idx + k) × IsDynamicRoute routes method p k
  of_slot_sound idx v p [] m = elim m [ ]
  of_slot_sound idx v p ((m', p') ∷ routes) m =
      let later : Memᴰ (p, v) (of_slot mi (suc idx) routes)
          → (k : ℕ) × (v ≡ idx + k) × IsDynamicRoute ((m', p') ∷ routes) method p k =
        λ m.
          let (k, e, r) = of_slot_sound (suc idx) v p routes m in
          (suc k, omega arith, record { listed = r.listed; dynamic = r.dynamic }) in
      elim (Bool-cases (is_dynamic p' && in_slot mi m')) [
        | inl e ↦ either later e (rw e at m)
        | inr e ↦ later (rw e at m)
      ]
    where
      either :
          (Memᴰ (p, v) (of_slot mi (suc idx) routes)
            → (k : ℕ) × (v ≡ idx + k) × IsDynamicRoute ((m', p') ∷ routes) method p k)
          → is_dynamic p' && in_slot mi m' ≡ true
          → Memᴰ (p, v) ((p', idx) ∷ of_slot mi (suc idx) routes)
          → (k : ℕ) × (v ≡ idx + k) × IsDynamicRoute ((m', p') ∷ routes) method p k
      either later e (Memᴰ.head same) =
          chosen idx v p m' p' routes e (ap (λ r. r.0) same) (ap (λ r. r.1) same)
      either later e (Memᴰ.tail m) = later m

  of_slot_complete :
      (idx k : ℕ) (p : Bytes) (routes : List (Method × Bytes))
      → IsDynamicRoute routes method p k
      → Memᴰ (p, idx + k) (of_slot mi idx routes)
  of_slot_complete idx k p [] r = cc r.listed
  of_slot_complete idx zero p ((m', p') ∷ routes) r =
      let yes : is_dynamic p && in_slot mi method ≡ true =
        rw (r.dynamic, in_slot_yes mi method index) refl in
      let same_m : m' ≡ method = cc r.listed in
      let same_p : p' ≡ p = cc r.listed in
      let at_zero : idx + zero ≡ idx = omega arith in
      rw (same_m, same_p, yes, at_zero) (Memᴰ.head refl)
  of_slot_complete idx (suc k) p ((m', p') ∷ routes) r =
      let moved : suc idx + k ≡ idx + suc k = omega arith in
      let later : Memᴰ (p, idx + suc k) (of_slot mi (suc idx) routes) = rw moved at (
        of_slot_complete (suc idx) k p routes
          (record { listed = r.listed; dynamic = r.dynamic })) in
      elim (Bool-cases (is_dynamic p' && in_slot mi m')) [
        | inl e ↦ rw e (Memᴰ.tail later)
        | inr e ↦ rw e later
      ]

  -- The routes of a method, counted from the first.
  pub slot_route :
      (v : ℕ) (p : Bytes) (routes : List (Method × Bytes))
      → Memᴰ (p, v) (of_slot mi 0 routes)
      → IsDynamicRoute routes method p v
  slot_route v p routes m =
      let (k, same, r) = of_slot_sound 0 v p routes m in
      let there : k ≡ v = omega arith in rw there at r

  pub route_slot :
      (v : ℕ) (p : Bytes) (routes : List (Method × Bytes))
      → IsDynamicRoute routes method p v
      → Memᴰ (p, v) (of_slot mi 0 routes)
  route_slot v p routes r =
      let there : 0 + v ≡ v = omega arith in rw there at (of_slot_complete 0 v p routes r)
