-- ===== src/Trie/Insert/Extend.antt =====
-- A node that gains a child keeps the invariant.
use rapina.Prelude.{
  ℕ, ◌<◌, ◌≡◌, ◌∙◌, ◌⊎◌, inl, inr, some, none, length, get_elem?, ◌==◌, Bool-cases, ==_iff, arith,
}
use rapina.Trie.Node.{Node, Arena, static_child}
use rapina.Trie.Spelling.{Spelling}
use rapina.Trie.Invariant.{
  StaticLink, ParamLink, StaticParent, ParamParent, HasParent, IsSound, IsTrie, Terminal,
}
use rapina.Trie.Insert.Arenas.{
  extended, extended_at, extended_old, extended_cases, get_elem?_bound, relabel, relabel_ne,
}

-- The node with a child more, at `k`, has all else of the old one.
pub record Gains (n y : Node) : Type 0 where
  pub same_prefix : y.prefix ≡ n.prefix
  pub same_name : y.param_name ≡ n.param_name
  pub same_value : y.value ≡ n.value
  pub more_static : (b c : ℕ) → static_child n b ≡ some c → static_child y b ≡ some c
  pub more_param : (p : ℕ) → n.param_child ≡ some p → y.param_child ≡ some p
  pub only_unnamed : (y.param_child ≡ n.param_child) ⊎ (n.param_name ≡ none)

module _ {Route : ℕ → Spelling → Type 0} {label : ℕ → Spelling} {arena : Arena}
    (trie : IsTrie Route label arena) (k : ℕ) (n x y : Node) (stored : get_elem? arena k ≡ some n)
    (gains : Gains n y) (s : Spelling) where
  abbrev pub arena' : Arena
  arena' = extended arena k x y

  abbrev pub label' : ℕ → Spelling
  label' = relabel (length arena) s label

  inside : k < length arena
  inside = get_elem?_bound arena k stored

  pub label_old : (i : ℕ) {m : Node} → get_elem? arena i ≡ some m → label' i ≡ label i
  label_old i h = relabel_ne (length arena) s label i (omega (arith, get_elem?_bound arena i h))

  pub StaticLink-kept :
      (id b c : ℕ) {m : Node}
      → get_elem? arena id ≡ some m
      → StaticLink label arena id b c
      → StaticLink label' arena' id b c
  StaticLink-kept id b c held l = elim (Bool-cases (c == k)) [
    | inl e ↦
        let same : c ≡ k = (==_iff c k).0 e in
        let node_same : l.node ≡ n = ground (arith, rw same at l.stored) in
        record {
          node = y;
          tail = l.tail;
          stored = rw same (extended_at arena k x y inside);
          starts = gains.same_prefix ∙ (rw node_same at l.starts);
          labelled =
              rw (label_old c l.stored, label_old id held, gains.same_prefix)
                (rw node_same at l.labelled);
        }
    | inr e ↦ record {
      node = l.node;
      tail = l.tail;
      stored = extended_old arena k x y inside c l.stored (ground arith);
      starts = l.starts;
      labelled = rw (label_old c l.stored, label_old id held) l.labelled;
    }
  ]

  pub ParamLink-kept :
      (id p : ℕ) {m : Node}
      → get_elem? arena id ≡ some m
      → ParamLink label arena id p
      → ParamLink label' arena' id p
  ParamLink-kept id p held l = elim (Bool-cases (p == k)) [
    | inl e ↦
        let same : p ≡ k = (==_iff p k).0 e in
        let node_same : l.node ≡ n = ground (arith, rw same at l.stored) in
        let named : n.param_name ≡ some l.name = rw node_same at l.named in
        record {
          node = y;
          name = l.name;
          stored = rw same (extended_at arena k x y inside);
          empty = gains.same_prefix ∙ (rw node_same at l.empty);
          named = gains.same_name ∙ named;
          no_param = elim gains.only_unnamed [
            | inl kept ↦ kept ∙ (rw node_same at l.no_param)
            | inr unnamed ↦ cc
          ];
          labelled = rw (label_old p l.stored, label_old id held) l.labelled;
          fresh = rw (label_old id held) l.fresh;
        }
    | inr e ↦ record {
      node = l.node;
      name = l.name;
      stored = extended_old arena k x y inside p l.stored (ground arith);
      empty = l.empty;
      named = l.named;
      no_param = l.no_param;
      labelled = rw (label_old p l.stored, label_old id held) l.labelled;
      fresh = rw (label_old id held) l.fresh;
    }
  ]

  StaticParent-kept : (id : ℕ) → StaticParent arena id → StaticParent arena' id
  StaticParent-kept id p = elim (Bool-cases (p.parent == k)) [
    | inl e ↦
        let same : p.parent ≡ k = (==_iff p.parent k).0 e in
        let node_same : p.node ≡ n = ground (arith, rw same at p.stored) in
        record {
          parent = k;
          node = y;
          byte = p.byte;
          stored = extended_at arena k x y inside;
          link = gains.more_static p.byte id (rw node_same at p.link);
        }
    | inr e ↦ record {
      parent = p.parent;
      node = p.node;
      byte = p.byte;
      stored = extended_old arena k x y inside p.parent p.stored (ground arith);
      link = p.link;
    }
  ]

  ParamParent-kept : (id : ℕ) → ParamParent arena id → ParamParent arena' id
  ParamParent-kept id p = elim (Bool-cases (p.parent == k)) [
    | inl e ↦
        let same : p.parent ≡ k = (==_iff p.parent k).0 e in
        let node_same : p.node ≡ n = ground (arith, rw same at p.stored) in
        record {
          parent = k;
          node = y;
          stored = extended_at arena k x y inside;
          link = gains.more_param id (rw node_same at p.link);
        }
    | inr e ↦ record {
      parent = p.parent;
      node = p.node;
      stored = extended_old arena k x y inside p.parent p.stored (ground arith);
      link = p.link;
    }
  ]

  pub HasParent-kept : (id : ℕ) → HasParent arena id → HasParent arena' id
  HasParent-kept id (inl e) = inl e
  HasParent-kept id (inr (inl p)) = inr (inl (StaticParent-kept id p))
  HasParent-kept id (inr (inr p)) = inr (inr (ParamParent-kept id p))

  IsSound_kept :
      (id : ℕ) (m : Node) → get_elem? arena id ≡ some m → IsSound Route label' arena' id m
  IsSound_kept id m held =
      let o = trie.sound id m held in
      record {
        parallel = o.parallel;
        static_ok = λ b c h. StaticLink-kept id b c held (o.static_ok b c h);
        param_ok = λ p h. ParamLink-kept id p held (o.param_ok p h);
        value_ok = λ v h. rw (label_old id held) (o.value_ok v h);
        named_empty = o.named_empty;
        parent = HasParent-kept id o.parent;
      }

  -- The new node and the one that gained it are sound by what was added; all else is as before.
  pub extended-IsTrie :
      IsSound Route label' arena' k y
      → IsSound Route label' arena' (length arena) x
      → IsTrie Route label' arena'
  extended-IsTrie sound_y sound_x = elim (Bool-cases (0 == k)) [
    | inl e ↦
        let same : 0 ≡ k = (==_iff 0 k).0 e in
        let node_same : trie.root ≡ n = ground (arith, rw same at trie.root_stored) in
        record {
          root = y;
          root_stored = rw same (extended_at arena k x y inside);
          root_empty = gains.same_prefix ∙ (rw node_same at trie.root_empty);
          root_unnamed = gains.same_name ∙ (rw node_same at trie.root_unnamed);
          root_label = label_old 0 trie.root_stored ∙ trie.root_label;
          sound = all_sound;
        }
    | inr e ↦ record {
      root = trie.root;
      root_stored = extended_old arena k x y inside 0 trie.root_stored (ground arith);
      root_empty = trie.root_empty;
      root_unnamed = trie.root_unnamed;
      root_label = label_old 0 trie.root_stored ∙ trie.root_label;
      sound = all_sound;
    }
  ]
    where
      all_sound :
          (id : ℕ) (m : Node) → get_elem? arena' id ≡ some m → IsSound Route label' arena' id m
      all_sound id m h = elim (extended_cases arena k x y inside id m h) [
        | inl (e, f) ↦ rw (e, f) sound_y
        | inr (inl (e, f)) ↦ rw (e, f) sound_x
        | inr (inr (ne, held)) ↦ IsSound_kept id m held
      ]

  pub Terminal-kept : (u : Spelling) → Terminal label arena u → Terminal label' arena' u
  Terminal-kept u t = elim (Bool-cases (t.id == k)) [
    | inl e ↦
        let same : t.id ≡ k = (==_iff t.id k).0 e in
        let node_same : t.node ≡ n = ground (arith, rw same at t.stored) in
        record {
          id = k;
          node = y;
          index = t.index;
          stored = extended_at arena k x y inside;
          labelled = label_old k stored ∙ (rw same at t.labelled);
          valued = gains.same_value ∙ (rw node_same at t.valued);
        }
    | inr e ↦ record {
      id = t.id;
      node = t.node;
      index = t.index;
      stored = extended_old arena k x y inside t.id t.stored (ground arith);
      labelled = label_old t.id t.stored ∙ t.labelled;
      valued = t.valued;
    }
  ]
