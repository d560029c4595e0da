-- ===== src/TrieRouter/Finish.antt =====
-- `finish`, slot by slot.
use rapina.Prelude.{
  ℕ, zero, suc, ◌≡◌, refl, ap, List, [], ◌∷◌, Option, none, some, Bytes, length, get_elem?,
  >>=-eq-some,
}
use rapina.Trie.Node.{Arena, new_trie}
use rapina.Trie.Reorder.{compute_priorities, reorder_children}
use rapina.Trie.Correct.{AllDistinct, Built, inserts}
use rapina.Trie.Correct.Finished.{finished-Built}
use rapina.TrieRouter.{TrieRouter, finish}
use rapina.TrieRouter.Slots.{Holds, unused, holds}

-- What the slot of a list of patterns is once the tries are finished.
pub data Finished (l : List (Bytes × ℕ)) : Option Arena → Type 0 where
  no_trie : l ≡ [] → Finished l none
  trie_of : {t : Arena} → Built l l t → Finished l (some t)

pub record FinishedAll (l : ℕ → List (Bytes × ℕ)) (slots : TrieRouter) : Type 0 where
  pub after : TrieRouter
  pub runs : finish slots ≡ some after
  pub size : length after ≡ length slots
  pub each : (i : ℕ) (slot : Option Arena) → get_elem? after i ≡ some slot → Finished (l i) slot

Holds-none : (l : List (Bytes × ℕ)) → Holds l none → l ≡ []
Holds-none l (unused e) = e

Holds-some : (l : List (Bytes × ℕ)) (t : Arena) → Holds l (some t) → inserts l new_trie ≡ some t
Holds-some l t (holds e) = e

Each-cons :
    (l : ℕ → List (Bytes × ℕ)) (first : Option Arena) (rest : TrieRouter)
    → Finished (l 0) first
    → ((i : ℕ) (slot : Option Arena) → get_elem? rest i ≡ some slot → Finished (l (suc i)) slot)
    → (i : ℕ) (slot : Option Arena) → get_elem? (first ∷ rest) i ≡ some slot
    → Finished (l i) slot
Each-cons l first rest f each zero slot h = let same : first ≡ slot = cc in rw (← same) f
Each-cons l first rest f each (suc i) slot h = each i slot h

-- Each slot that holds the insertions of a list is finished without a panic.
pub finish_lem :
    (l : ℕ → List (Bytes × ℕ)) (slots : TrieRouter)
    → ((i : ℕ) → AllDistinct (l i))
    → ((i : ℕ) (slot : Option Arena) → get_elem? slots i ≡ some slot → Holds (l i) slot)
    → FinishedAll l slots
unfolding finish
finish_lem l [] d h = record {
  after = [];
  runs = refl;
  size = refl;
  each = λ i slot stored. cc stored;
}
finish_lem l (none ∷ slots) d h =
    let r = finish_lem (λ i. l (suc i)) slots (λ i. d (suc i)) (λ i. h (suc i)) in
    record {
      after = none ∷ r.after;
      runs = rw r.runs refl;
      size = ap suc r.size;
      each = Each-cons l none r.after (no_trie (Holds-none (l 0) (h 0 none refl))) r.each;
    }
finish_lem l (some t ∷ slots) d h =
    let r = finish_lem (λ i. l (suc i)) slots (λ i. d (suc i)) (λ i. h (suc i)) in
    let (t', steps, b) = finished-Built (l 0) t (d 0) (Holds-some (l 0) t (h 0 (some t) refl)) in
    let (counted, counts, orders) = >>=-eq-some (compute_priorities t) reorder_children steps in
    record {
      after = some t' ∷ r.after;
      runs = rw (counts, orders, r.runs) refl;
      size = ap suc r.size;
      each = Each-cons l (some t') r.after (trie_of b) r.each;
    }
