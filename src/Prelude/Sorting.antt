-- ===== src/Prelude/Sorting.antt =====
-- A stable sort by a Boolean order (`slice::sort_by`), and the first match in a sorted list.
use mathlib.Core.Path.{◌≡◌, refl, sym, ◌∙◌}
use mathlib.Core.Bool.{Bool, true, false}
use mathlib.Core.Logic.{inl, inr}
use mathlib.Core.Option.{Option, none, some}
use mathlib.Core.List.{List, [], ◌∷◌, Memᴰ}
use rapina.Prelude.Tests.{if◌then◌else◌, Bool-cases}
use rapina.Prelude.Lists.{All}

-- `Iterator::find`.
abbrev pub find {ℓ} : {A : Type ℓ} → (A → Bool) → List A → Option A
find test [] = none
find test (x ∷ xs) = if test x then some x else find test xs

module _ {ℓ} {A : Type ℓ} (le : A → A → Bool) where
  abbrev pub insert_by : A → List A → List A
  insert_by a [] = a ∷ []
  insert_by a (x ∷ xs) = let behind = insert_by a xs in if le a x then a ∷ x ∷ xs else x ∷ behind

  abbrev pub sort_by : List A → List A
  sort_by [] = []
  sort_by (x ∷ xs) = insert_by x (sort_by xs)

module _ {ℓ} {A : Type ℓ} where
  Mem-cons :
      (a : A) (xs ys : List A) (r : A) → (Memᴰ r xs → Memᴰ r ys) → Memᴰ r (a ∷ xs) → Memᴰ r (a ∷ ys)
  Mem-cons a xs ys r f (Memᴰ.head e) = Memᴰ.head e
  Mem-cons a xs ys r f (Memᴰ.tail m) = Memᴰ.tail (f m)

  Mem-swap : (a b : A) (xs : List A) (r : A) → Memᴰ r (a ∷ b ∷ xs) → Memᴰ r (b ∷ a ∷ xs)
  Mem-swap a b xs r (Memᴰ.head e) = Memᴰ.tail (Memᴰ.head e)
  Mem-swap a b xs r (Memᴰ.tail (Memᴰ.head e)) = Memᴰ.head e
  Mem-swap a b xs r (Memᴰ.tail (Memᴰ.tail m)) = Memᴰ.tail (Memᴰ.tail m)

  Mem-All : (P : A → Type 0) (xs : List A) (r : A) → All P xs → Memᴰ r xs → P r
  Mem-All P [] r h m = elim m [ ]
  Mem-All P (x ∷ xs) r (h, hs) (Memᴰ.head e) = rw e h
  Mem-All P (x ∷ xs) r (h, hs) (Memᴰ.tail m) = Mem-All P xs r hs m

module _ {ℓ} {A : Type ℓ} (le : A → A → Bool) where
  Mem-insert_by : (a : A) (xs : List A) (r : A) → Memᴰ r (insert_by le a xs) → Memᴰ r (a ∷ xs)
  Mem-insert_by a [] r m = m
  Mem-insert_by a (x ∷ xs) r m =
      let below = Mem-insert_by a xs r in
      elim (Bool-cases (le a x)) [
        | inl e ↦ rw e at m
        | inr e ↦ Mem-swap x a xs r (Mem-cons x (insert_by le a xs) (a ∷ xs) r below (rw e at m))
      ]

  insert_by-Mem : (a : A) (xs : List A) (r : A) → Memᴰ r (a ∷ xs) → Memᴰ r (insert_by le a xs)
  insert_by-Mem a [] r m = m
  insert_by-Mem a (x ∷ xs) r m =
      let below = insert_by-Mem a xs r in
      elim (Bool-cases (le a x)) [
        | inl e ↦ rw e m
        | inr e ↦ rw e (Mem-cons x (a ∷ xs) (insert_by le a xs) r below (Mem-swap a x xs r m))
      ]

  pub Mem-sort_by : (xs : List A) (r : A) → Memᴰ r (sort_by le xs) → Memᴰ r xs
  Mem-sort_by [] r m = m
  Mem-sort_by (x ∷ xs) r m =
      Mem-cons x (sort_by le xs) xs r (Mem-sort_by xs r) (Mem-insert_by x (sort_by le xs) r m)

  pub sort_by-Mem : (xs : List A) (r : A) → Memᴰ r xs → Memᴰ r (sort_by le xs)
  sort_by-Mem [] r m = m
  sort_by-Mem (x ∷ xs) r m =
      insert_by-Mem x (sort_by le xs) r (Mem-cons x xs (sort_by le xs) r (sort_by-Mem xs r) m)

  -- A right outcome of a search for a least element that passes a test.
  pub data Finds (test : A → Bool) (xs : List A) : Option A → Type ℓ where
    least :
        {c : A}
        → Memᴰ c xs
        → test c ≡ true
        → ((d : A) → Memᴰ d xs → test d ≡ true → le c d ≡ true)
        → Finds test xs (some c)
    nothing : ((d : A) → Memᴰ d xs → test d ≡ false) → Finds test xs none

module _ {ℓ} {A : Type ℓ} (le : A → A → Bool) (total : (a b : A) → le a b ≡ false → le b a ≡ true)
    (trans : (a b c : A) → le a b ≡ true → le b c ≡ true → le a c ≡ true) where
  abbrev pub IsOrdered : List A → Type 0
  IsOrdered [] = Unit
  IsOrdered (x ∷ xs) = All (λ y. le x y ≡ true) xs × IsOrdered xs

  All-trans :
      (a x : A) (xs : List A)
      → le a x ≡ true
      → All (λ y. le x y ≡ true) xs
      → All (λ y. le a y ≡ true) xs
  All-trans a x [] h k = tt
  All-trans a x (y ∷ xs) h (k, ks) = (trans a x y h k, All-trans a x xs h ks)

  All-insert_by :
      (P : A → Type 0) (a : A) (xs : List A) → P a → All P xs → All P (insert_by le a xs)
  All-insert_by P a [] h k = (h, tt)
  All-insert_by P a (x ∷ xs) h (k, ks) = elim (Bool-cases (le a x)) [
    | inl e ↦ rw e (h, (k, ks))
    | inr e ↦ rw e (k, All-insert_by P a xs h ks)
  ]

  insert_by-IsOrdered : (a : A) (xs : List A) → IsOrdered xs → IsOrdered (insert_by le a xs)
  insert_by-IsOrdered a [] h = (tt, tt)
  insert_by-IsOrdered a (x ∷ xs) (h, hs) = elim (Bool-cases (le a x)) [
    | inl e ↦ rw e ((e, All-trans a x xs e h), (h, hs))
    | inr e ↦
        rw e (All-insert_by (λ y. le x y ≡ true) a xs (total a x e) h, insert_by-IsOrdered a xs hs)
  ]

  pub sort_by-IsOrdered : (xs : List A) → IsOrdered (sort_by le xs)
  sort_by-IsOrdered [] = tt
  sort_by-IsOrdered (x ∷ xs) = insert_by-IsOrdered x (sort_by le xs) (sort_by-IsOrdered xs)

  le_refl : (a : A) → le a a ≡ true
  le_refl a = elim (Bool-cases (le a a)) [ inl e ↦ e | inr e ↦ total a a e ]

  Finds-ordered : (test : A → Bool) (xs : List A) → IsOrdered xs → Finds le test xs (find test xs)
  Finds-ordered test [] h = nothing (λ d m. elim m [ ])
  Finds-ordered test (x ∷ xs) (h, hs) = elim (Bool-cases (test x)) [
    | inl e ↦ rw e (least (Memᴰ.head refl) e first)
    | inr e ↦ rw e (later e (find test xs) (Finds-ordered test xs hs))
  ]
    where
      first : (d : A) → Memᴰ d (x ∷ xs) → test d ≡ true → le x d ≡ true
      first d (Memᴰ.head e) t = rw e (le_refl x)
      first d (Memᴰ.tail m) t = Mem-All (λ y. le x y ≡ true) xs d h m

      later : test x ≡ false → (o : Option A) → Finds le test xs o → Finds le test (x ∷ xs) o
      later e (some c) (least m t all) = least (Memᴰ.tail m) t (skip c t all)
        where
          skip :
              (c : A)
              → test c ≡ true
              → ((d : A) → Memᴰ d xs → test d ≡ true → le c d ≡ true)
              → (d : A) → Memᴰ d (x ∷ xs)
              → test d ≡ true
              → le c d ≡ true
          skip c t all d (Memᴰ.head same) u =
              let clash : test x ≡ true = rw same at u in cc (sym e ∙ clash)
          skip c t all d (Memᴰ.tail m) u = all d m u
      later e none (nothing no_one) = nothing (λ d m. go d m)
        where
          go : (d : A) → Memᴰ d (x ∷ xs) → test d ≡ false
          go d (Memᴰ.head same) = rw same e
          go d (Memᴰ.tail m) = no_one d m

  -- The first match in the sorted list is a least match of the list.
  pub Finds-sort_by : (test : A → Bool) (xs : List A) → Finds le test xs (find test (sort_by le xs))
  Finds-sort_by test xs =
      moved (find test (sort_by le xs)) (Finds-ordered test (sort_by le xs) (sort_by-IsOrdered xs))
    where
      moved : (o : Option A) → Finds le test (sort_by le xs) o → Finds le test xs o
      moved (some c) (least m t all) =
          least (Mem-sort_by le xs c m) t (λ d n u. all d (sort_by-Mem le xs d n) u)
      moved none (nothing no_one) = nothing (λ d n. no_one d (sort_by-Mem le xs d n))
