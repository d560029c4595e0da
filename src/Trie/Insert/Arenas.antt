-- ===== src/Trie/Insert/Arenas.antt =====
-- An arena after one node was replaced and one was added, and labels after one was given.
use rapina.Prelude.{
  ℕ, zero, suc, ◌<◌, ◌≡◌, ◌≢◌, refl, sym, ◌⊎◌, inl, inr, List, [], ◌∷◌, ◌++◌, some, length,
  get_elem?, set, ◌==◌, if◌then◌else◌, Bool-cases, ==_iff, ==_refl, arith,
}
use rapina.Trie.Node.{Node, Arena}
use rapina.Trie.Spelling.{Spelling}

pub get_elem?_bound {ℓ} :
    {A : Type ℓ} (xs : List A) (i : ℕ) {a : A} → get_elem? xs i ≡ some a → i < length xs
get_elem?_bound [] i h = cc
get_elem?_bound (x ∷ xs) zero h = omega arith
get_elem?_bound (x ∷ xs) (suc i) h = omega (arith, get_elem?_bound xs i h)

module _ {ℓ} {A : Type ℓ} where
  pub get_elem?-set_self :
      (xs : List A) (i : ℕ) (v : A) → i < length xs → get_elem? (set xs i v) i ≡ some v
  get_elem?-set_self [] i v h = absurd (omega arith)
  get_elem?-set_self (x ∷ xs) zero v h = refl
  get_elem?-set_self (x ∷ xs) (suc i) v h = get_elem?-set_self xs i v (omega arith)

  pub get_elem?-set_ne :
      (xs : List A) (i j : ℕ) (v : A) → i ≢ j → get_elem? (set xs i v) j ≡ get_elem? xs j
  get_elem?-set_ne [] i j v h = refl
  get_elem?-set_ne (x ∷ xs) zero zero v h = absurd (h refl)
  get_elem?-set_ne (x ∷ xs) zero (suc j) v h = refl
  get_elem?-set_ne (x ∷ xs) (suc i) zero v h = refl
  get_elem?-set_ne (x ∷ xs) (suc i) (suc j) v h = get_elem?-set_ne xs i j v (omega arith)

  pub get_elem?-push_last : (xs : List A) (v : A) → get_elem? (xs ++ v ∷ []) (length xs) ≡ some v
  get_elem?-push_last [] v = refl
  get_elem?-push_last (x ∷ xs) v = get_elem?-push_last xs v

  pub get_elem?-push_ne :
      (xs : List A) (v : A) (i : ℕ) → i ≢ length xs → get_elem? (xs ++ v ∷ []) i ≡ get_elem? xs i
  get_elem?-push_ne [] v zero h = absurd (h refl)
  get_elem?-push_ne [] v (suc i) h = refl
  get_elem?-push_ne (x ∷ xs) v zero h = refl
  get_elem?-push_ne (x ∷ xs) v (suc i) h = get_elem?-push_ne xs v i (omega arith)

  pub length-push : (xs : List A) (v : A) → length (xs ++ v ∷ []) ≡ suc (length xs)
  length-push [] v = refl
  length-push (x ∷ xs) v = omega (arith, length-push xs v)

  pub length-set : (xs : List A) (i : ℕ) (v : A) → length (set xs i v) ≡ length xs
  length-set [] i v = refl
  length-set (x ∷ xs) zero v = refl
  length-set (x ∷ xs) (suc i) v = omega (arith, length-set xs i v)

-- `x` was added behind the arena and `y` put at `k`.
abbrev pub extended : Arena → ℕ → Node → Node → Arena
extended arena k x y = set (arena ++ x ∷ []) k y

module _ (arena : Arena) (k : ℕ) (x y : Node) (inside : k < length arena) where
  pub extended_at : get_elem? (extended arena k x y) k ≡ some y
  extended_at = get_elem?-set_self (arena ++ x ∷ []) k y (omega (arith, length-push arena x))

  pub extended_new : get_elem? (extended arena k x y) (length arena) ≡ some x
  extended_new =
      rw (get_elem?-set_ne (arena ++ x ∷ []) k (length arena) y (omega arith))
        (get_elem?-push_last arena x)

  pub extended_old :
      (i : ℕ) {n : Node}
      → get_elem? arena i ≡ some n
      → i ≢ k
      → get_elem? (extended arena k x y) i ≡ some n
  extended_old i h ne =
      rw (get_elem?-set_ne (arena ++ x ∷ []) k i y (omega arith))
        (rw (get_elem?-push_ne arena x i (omega (arith, get_elem?_bound arena i h))) h)

  pub extended_cases :
      (i : ℕ) (n : Node)
      → get_elem? (extended arena k x y) i ≡ some n
      → ((i ≡ k) × (n ≡ y))
        ⊎ (((i ≡ length arena) × (n ≡ x)) ⊎ ((i ≢ k) × (get_elem? arena i ≡ some n)))
  extended_cases i n h = elim (Bool-cases (i == k)) [
    | inl e ↦
        let same : i ≡ k = (==_iff i k).0 e in inl (same, ground (arith, rw same at h, extended_at))
    | inr ne ↦ elim (Bool-cases (i == length arena)) [
      | inl e ↦
          let same : i ≡ length arena = (==_iff i (length arena)).0 e in
          inr (inl (same, ground (arith, rw same at h, extended_new)))
      | inr fresh ↦
          let other : i ≢ k = ground arith in
          inr (
            inr (
              other,
              rw (get_elem?-push_ne arena x i (ground arith)) at
                  (rw (get_elem?-set_ne (arena ++ x ∷ []) k i y (λ e. other (sym e))) at h),
            ))
    ]
  ]

-- The labels with one given anew.
abbrev pub relabel : ℕ → Spelling → (ℕ → Spelling) → ℕ → Spelling
relabel i s label j = if j == i then s else label j

pub relabel_at : (i : ℕ) (s : Spelling) (label : ℕ → Spelling) → relabel i s label i ≡ s
relabel_at i s label = rw (==_refl i)

pub relabel_ne :
    (i : ℕ) (s : Spelling) (label : ℕ → Spelling) (j : ℕ) → j ≢ i → relabel i s label j ≡ label j
relabel_ne i s label j h = ground arith
