-- ===== src/Trie/Insert/Child.antt =====
-- A new static child or a new parameter child keeps the invariant.
use rapina.Prelude.{
  ℕ, ◌<◌, ◌≡◌, refl, ◌⊎◌, inl, inr, List, [], ◌∷◌, ◌++◌, Option, some, none, length, get_elem?,
  ◌==◌, ==_refl, arith, Bytes, ◌>>=◌, if◌then◌else◌,
}
use rapina.Trie.Node.{Node, Arena, static_child, position, with_prefix}
use rapina.Trie.Spelling.{Spelling, of_bytes}
use rapina.Trie.Invariant.{StaticLink, IsSound, IsTrie, Terminal}
use rapina.Trie.Insert.{add_child}
use rapina.Trie.Insert.Arenas.{
  extended, extended_at, extended_new, get_elem?_bound, relabel, relabel_at, length-push,
}
use rapina.Trie.Insert.Extend.{
  Gains, label_old, StaticLink-kept, ParamLink-kept, HasParent-kept, extended-IsTrie, Terminal-kept,
}

-- The child for a byte, by parallel lists of bytes and children.
abbrev pub child_for : List ℕ → List ℕ → ℕ → Option ℕ
child_for bs cs b = position b bs >>= get_elem? cs

pub child_for-cons :
    (x y : ℕ) (bs cs : List ℕ) (b : ℕ)
    → child_for (x ∷ bs) (y ∷ cs) b ≡ (if x == b then some y else child_for bs cs b)
unfolding position
child_for-cons x y bs cs b = ground arith

child_for-push_old :
    (bs cs : List ℕ) (next child b c : ℕ)
    → length bs ≡ length cs
    → child_for bs cs b ≡ some c
    → child_for (bs ++ next ∷ []) (cs ++ child ∷ []) b ≡ some c
child_for-push_old [] [] next child b c l h = unfold position in cc h
child_for-push_old [] (y ∷ cs) next child b c l h = absurd (omega arith)
child_for-push_old (x ∷ bs) [] next child b c l h = absurd (omega arith)
child_for-push_old (x ∷ bs) (y ∷ cs) next child b c l h = ground (
  arith,
  child_for-cons x y bs cs b,
  child_for-cons x y (bs ++ next ∷ []) (cs ++ child ∷ []) b,
  child_for-push_old bs cs next child b c,
)

child_for-push_cases :
    (bs cs : List ℕ) (next child b c : ℕ)
    → length bs ≡ length cs
    → child_for (bs ++ next ∷ []) (cs ++ child ∷ []) b ≡ some c
    → (child_for bs cs b ≡ some c) ⊎ ((b ≡ next) × (c ≡ child))
child_for-push_cases [] [] next child b c l h = ground (arith, child_for-cons next child [] [] b)
child_for-push_cases [] (y ∷ cs) next child b c l h = absurd (omega arith)
child_for-push_cases (x ∷ bs) [] next child b c l h = absurd (omega arith)
child_for-push_cases (x ∷ bs) (y ∷ cs) next child b c l h = ground (
  arith,
  child_for-cons x y bs cs b,
  child_for-cons x y (bs ++ next ∷ []) (cs ++ child ∷ []) b,
  child_for-push_cases bs cs next child b c,
)

child_for-push_new :
    (bs cs : List ℕ) (next child : ℕ)
    → length bs ≡ length cs
    → position next bs ≡ none
    → child_for (bs ++ next ∷ []) (cs ++ child ∷ []) next ≡ some child
unfolding position
child_for-push_new [] [] next child l h = rw (==_refl next)
child_for-push_new [] (y ∷ cs) next child l h = absurd (omega arith)
child_for-push_new (x ∷ bs) [] next child l h = absurd (omega arith)
child_for-push_new (x ∷ bs) (y ∷ cs) next child l h =
    ground (arith, child_for-push_new bs cs next child)

module _ {Route : ℕ → Spelling → Type 0} {label : ℕ → Spelling} {arena : Arena}
    (trie : IsTrie Route label arena) (k : ℕ) (n : Node) (stored : get_elem? arena k ≡ some n) where
  inside : k < length arena
  inside = get_elem?_bound arena k stored

  o : IsSound Route label arena k n
  o = trie.sound k n stored

  module _ (next : ℕ) (rest : Bytes) (free : position next n.indices ≡ none) where
    abbrev x : Node
    x = with_prefix (next ∷ rest)

    abbrev y : Node
    y = record n { indices = n.indices ++ next ∷ []; children = n.children ++ length arena ∷ [] }

    add_child_runs : add_child arena k n next rest ≡ (extended arena k x y, length arena)
    unfolding add_child
    add_child_runs = refl

    static-Gains : Gains n y
    unfolding static_child
    static-Gains = record {
      same_prefix = refl;
      same_name = refl;
      same_value = refl;
      more_static =
          λ b c h. child_for-push_old n.indices n.children next (length arena) b c o.parallel h;
      more_param = λ p h. h;
      only_unnamed = inl refl;
    }

    abbrev pub child_label : ℕ → Spelling
    child_label = relabel (length arena) (label k ++ of_bytes (next ∷ rest)) label

    new_link : StaticLink child_label (extended arena k x y) k next (length arena)
    unfolding with_prefix
    new_link = record {
      node = x;
      tail = rest;
      stored = extended_new arena k x y inside;
      starts = refl;
      labelled =
          rw
            (label_old trie k n x y stored static-Gains (label k ++ of_bytes (next ∷ rest)) k
              stored)
            (relabel_at (length arena) (label k ++ of_bytes (next ∷ rest)) label);
    }

    sound_gained : IsSound Route child_label (extended arena k x y) k y
    unfolding static_child
    sound_gained = record {
      parallel =
          omega
            (arith, o.parallel, length-push n.indices next, length-push n.children (length arena));
      static_ok = λ b c h.
          elim (child_for-push_cases n.indices n.children next (length arena) b c o.parallel h) [
            | inl old ↦
                StaticLink-kept trie k n x y stored static-Gains (label k ++ of_bytes (next ∷ rest))
                  k b c stored (o.static_ok b c old)
            | inr (e, f) ↦ rw (e, f) new_link
          ];
      param_ok = λ p h.
          ParamLink-kept trie k n x y stored static-Gains (label k ++ of_bytes (next ∷ rest)) k p
            stored (o.param_ok p h);
      value_ok = λ v h.
          rw
            (label_old trie k n x y stored static-Gains (label k ++ of_bytes (next ∷ rest)) k
              stored)
            (o.value_ok v h);
      named_empty = o.named_empty;
      parent =
          HasParent-kept trie k n x y stored static-Gains (label k ++ of_bytes (next ∷ rest)) k
            o.parent;
    }

    sound_new : IsSound Route child_label (extended arena k x y) (length arena) x
    unfolding with_prefix static_child
    sound_new = record {
      parallel = refl;
      static_ok = λ b c h. unfold position in cc;
      param_ok = λ p h. cc;
      value_ok = λ v h. cc;
      named_empty = λ name h. cc;
      parent = inr (
          inl (record {
            parent = k;
            node = y;
            byte = next;
            stored = extended_at arena k x y inside;
            link = child_for-push_new n.indices n.children next (length arena) o.parallel free;
          }));
    }

    -- The arena with the new child is a trie that has all that it had.
    pub add_child-IsTrie : IsTrie Route child_label (extended arena k x y)
    add_child-IsTrie =
        extended-IsTrie trie k n x y stored static-Gains (label k ++ of_bytes (next ∷ rest))
          sound_gained sound_new

    pub add_child-Terminal :
        (u : Spelling) → Terminal label arena u → Terminal child_label (extended arena k x y) u
    add_child-Terminal =
        Terminal-kept trie k n x y stored static-Gains (label k ++ of_bytes (next ∷ rest))
