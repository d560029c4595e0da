-- ===== src/Trie/Insert/Split/Sound.antt =====
-- A split keeps the invariant, and the node's end becomes its new child's.
use rapina.Prelude.{
  ==_iff, ◌==◌, Bool-cases, [], ℕ, ◌<◌, ◌≡◌, ◌≢◌, refl, sym, ◌∙◌, inl, inr, ◌∷◌, ◌++◌, some, length,
  get_elem?, ==_refl, arith, Bytes, append_assoc,
}
use rapina.Trie.Node.{Node, Arena, static_child, position}
use rapina.Trie.Spelling.{Spelling, of_bytes, of_bytes-append}
use rapina.Trie.Invariant.{Terminal, IsSound, IsTrie}
use rapina.Trie.Insert.Split.{lower, upper}
use rapina.Trie.Insert.Split.Links.{
  label_at, label_new, label_old, StaticLink-above, StaticLink-below, ParamLink-above,
  ParamLink-below, HasParent-moved,
}
use rapina.Trie.Insert.Arenas.{
  extended_old, extended_cases, extended, extended_at, extended_new, get_elem?_bound, relabel,
}

module _ (arena : Arena) (k : ℕ) (n : Node) (stored : get_elem? arena k ≡ some n) (b : ℕ)
    (p' : Bytes) (first : ℕ) (q : Bytes) (split : n.prefix ≡ (b ∷ p') ++ first ∷ q)
    {Route : ℕ → Spelling → Type 0} {label : ℕ → Spelling} (trie : IsTrie Route label arena)
    (base : Spelling) (labelled : label k ≡ base ++ of_bytes n.prefix) where
  abbrev p : Bytes
  p = b ∷ p'

  abbrev x : Node
  x = lower n first q

  abbrev y : Node
  y = upper n p first (length arena)

  abbrev arena' : Arena
  arena' = extended arena k x y

  abbrev label' : ℕ → Spelling
  label' = relabel (length arena) (label k) (relabel k (base ++ of_bytes p) label)

  inside : k < length arena
  inside = get_elem?_bound arena k stored

  sound_old :
      (id : ℕ) (m : Node) → get_elem? arena id ≡ some m → id ≢ k → IsSound Route label' arena' id m
  sound_old id m held ne =
      let o = trie.sound id m held in
      record {
        parallel = o.parallel;
        static_ok = λ d c h.
            (StaticLink-above arena k n stored b p' first q split trie base labelled) id d c held ne
              (o.static_ok d c h);
        param_ok = λ c h.
            (ParamLink-above arena k n stored b p' first q split trie base labelled) id c held ne
              (o.param_ok c h);
        value_ok = λ v h.
            rw ((label_old arena k n stored b p' first q split trie base labelled) id held ne)
              (o.value_ok v h);
        named_empty = o.named_empty;
        parent =
            (HasParent-moved arena k n stored b p' first q split trie base labelled) id o.parent;
      }

  o : IsSound Route label arena k n
  o = trie.sound k n stored

  static_child_upper : (d c : ℕ) → static_child y d ≡ some c → (d ≡ first) × (c ≡ length arena)
  unfolding static_child position
  static_child_upper d c h = ground arith

  sound_upper : IsSound Route label' arena' k y
  sound_upper = record {
    parallel = refl;
    static_ok = λ d c h.
        let (e, f) = static_child_upper d c h in
        rw (e, f)
          (record {
            node = x;
            tail = q;
            stored = extended_new arena k x y inside;
            starts = refl;
            labelled =
                rw
                  (
                    (label_new arena k n stored b p' first q split trie base labelled),
                    (label_at arena k n stored b p' first q split trie base labelled),
                    labelled,
                    split,
                  )
                  (rw (of_bytes-append p' (first ∷ q))
                    (sym (append_assoc base (of_bytes p) (of_bytes (first ∷ q)))));
          });
    param_ok = λ c h. cc;
    value_ok = λ v h. cc;
    named_empty = λ name h. cc;
    parent = (HasParent-moved arena k n stored b p' first q split trie base labelled) k o.parent;
  }

  sound_lower : IsSound Route label' arena' (length arena) x
  unfolding static_child
  sound_lower = record {
    parallel = o.parallel;
    static_ok = λ d c h.
        (StaticLink-below arena k n stored b p' first q split trie base labelled) d c
          (o.static_ok d c h);
    param_ok = λ c h.
        (ParamLink-below arena k n stored b p' first q split trie base labelled) c (o.param_ok c h);
    value_ok = λ v h.
        rw (label_new arena k n stored b p' first q split trie base labelled) (o.value_ok v h);
    named_empty = λ name h. cc (sym split ∙ o.named_empty name h);
    parent = inr (
        inl (record {
          parent = k;
          node = y;
          byte = first;
          stored = extended_at arena k x y inside;
          link = unfold position in rw (==_refl first);
        }));
  }

  all_sound : (id : ℕ) (m : Node) → get_elem? arena' id ≡ some m → IsSound Route label' arena' id m
  all_sound id m h = elim (extended_cases arena k x y inside id m h) [
    | inl (e, f) ↦ rw (e, f) sound_upper
    | inr (inl (e, f)) ↦ rw (e, f) sound_lower
    | inr (inr (ne, held)) ↦ sound_old id m held ne
  ]

  not_root : 0 ≢ k
  not_root e =
      let same : trie.root ≡ n = ground (arith, rw e at trie.root_stored) in
      let empty : n.prefix ≡ [] = rw same at trie.root_empty in cc (sym split ∙ empty)

  pub split-IsTrie : IsTrie Route label' arena'
  split-IsTrie = record {
    root = trie.root;
    root_stored = extended_old arena k x y inside 0 trie.root_stored not_root;
    root_empty = trie.root_empty;
    root_unnamed = trie.root_unnamed;
    root_label =
        label_old arena k n stored b p' first q split trie base labelled 0 trie.root_stored not_root
        ∙ trie.root_label;
    sound = all_sound;
  }

  pub Terminal-moved : (u : Spelling) → Terminal label arena u → Terminal label' arena' u
  Terminal-moved u t = elim (Bool-cases (t.id == k)) [
    | inl e ↦
        let same : t.id ≡ k = (==_iff t.id k).0 e in
        let node_same : t.node ≡ n = ground (arith, rw same at t.stored) in
        record {
          id = length arena;
          node = x;
          index = t.index;
          stored = extended_new arena k x y inside;
          labelled =
              label_new arena k n stored b p' first q split trie base labelled
              ∙ (rw same at t.labelled);
          valued = rw node_same at t.valued;
        }
    | inr e ↦ record {
      id = t.id;
      node = t.node;
      index = t.index;
      stored = extended_old arena k x y inside t.id t.stored (ground arith);
      labelled =
          label_old arena k n stored b p' first q split trie base labelled t.id t.stored
            (ground arith)
          ∙ t.labelled;
      valued = t.valued;
    }
  ]
