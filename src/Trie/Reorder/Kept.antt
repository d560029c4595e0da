-- ===== src/Trie/Reorder/Kept.antt =====
-- The steps after the insertions leave the trie as it is, but for priorities and orders.
use rapina.Prelude.{
  ℕ, zero, suc, ◌≡◌, ◌<◌, ◌+◌, refl, ◌∙◌, List, [], ◌∷◌, some, length, get_elem?, set, arith,
  length-append,
}
use rapina.Trie.Node.{Node, Arena}
use rapina.Trie.Spelling.{Spelling, of_bytes, Symbol}
use rapina.Trie.Invariant.{StaticLink, ParamLink, IsTrie, Terminal}
use rapina.Trie.Insert.Arenas.{length-set}
use rapina.Trie.Insert.Replace.{SameLinks, replaced-IsTrie, replaced-Terminal}
use rapina.Trie.Distinct.{Distinct, IsDistinct, All-set}

pub get_elem?-some {ℓ} :
    {A : Type ℓ} (xs : List A) (i : ℕ) → i < length xs → (a : A) × (get_elem? xs i ≡ some a)
get_elem?-some [] i h = absurd (omega arith)
get_elem?-some (x ∷ xs) zero h = (x, refl)
get_elem?-some (x ∷ xs) (suc i) h = get_elem?-some xs i (omega arith)

module _ (Route : ℕ → Spelling → Type 0) (label : ℕ → Spelling) (base : Arena) where
  -- An arena with the same labels as `base`, and all of its terminal nodes.
  pub record Good (arena : Arena) : Type 0 where
    pub trie : IsTrie Route label arena
    pub distinct : IsDistinct arena
    pub size : length arena ≡ length base
    pub kept : (u : Spelling) → Terminal label base u → Terminal label arena u

module _ {Route : ℕ → Spelling → Type 0} {label : ℕ → Spelling} {base : Arena} where
  pub replaced-Good :
      {arena : Arena} (g : Good Route label base arena) (k : ℕ) (n y : Node)
      → get_elem? arena k ≡ some n
      → SameLinks n y
      → y.value ≡ n.value
      → Distinct y.indices
      → Good Route label base (set arena k y)
  replaced-Good {arena} g k n y stored same value distinct =
      let valued : (v : ℕ) → y.value ≡ some v → Route v (label k) =
        λ v h. (g.trie.sound k n stored).value_ok v (rw value at h) in
      record {
        trie = replaced-IsTrie g.trie k n y stored same valued;
        distinct = All-set (λ m. Distinct m.indices) arena k y g.distinct distinct;
        size = length-set arena k y ∙ g.size;
        kept = λ u t. replaced-Terminal g.trie k n y stored same valued u (g.kept u t);
      }

module _ {label : ℕ → Spelling} {arena : Arena} where
  pub static_deeper :
      {id b c : ℕ} (l : StaticLink label arena id b c) → length (label id) < length (label c)
  static_deeper {id} {b} {c} l =
      let more : length (label c) ≡ length (label id) + length (of_bytes l.node.prefix) =
        rw l.labelled (length-append (label id) (of_bytes l.node.prefix)) in
      let some_more : 0 < length (of_bytes l.node.prefix) = rw l.starts (omega arith) in omega arith

  pub param_deeper :
      {id p : ℕ} (l : ParamLink label arena id p) → length (label id) < length (label p)
  param_deeper {id} {p} l =
      let more : length (label p) ≡ length (label id) + 1 =
        rw l.labelled (length-append (label id) (Symbol.param l.name ∷ [])) in
      omega arith
