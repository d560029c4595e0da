-- ===== src/Trie/Insert/Replace.antt =====
-- A node that is replaced by one with the same links keeps the invariant, and its value stays one.
use rapina.Prelude.{
  ℕ, ◌≡◌, ◌≢◌, refl, sym, ◌∙◌, inl, inr, some, length, get_elem?, set, ◌==◌, Bool-cases, ==_iff,
  arith,
}
use rapina.Trie.Node.{Node, Arena, static_child}
use rapina.Trie.Spelling.{Spelling}
use rapina.Trie.Invariant.{StaticLink, ParamLink, HasParent, IsSound, IsTrie, Terminal}
use rapina.Trie.Insert.Arenas.{get_elem?_bound, get_elem?-set_self, get_elem?-set_ne}

pub record SameLinks (n y : Node) : Type 0 where
  pub same_prefix : y.prefix ≡ n.prefix
  pub same_name : y.param_name ≡ n.param_name
  pub same_param : y.param_child ≡ n.param_child
  pub same_static : (b : ℕ) → static_child y b ≡ static_child n b
  pub parallel : length y.indices ≡ length y.children
  pub still_valued : (v : ℕ) → n.value ≡ some v → (w : ℕ) × (y.value ≡ some w)

module _ {Route : ℕ → Spelling → Type 0} {label : ℕ → Spelling} {arena : Arena}
    (trie : IsTrie Route label arena) (k : ℕ) (n y : Node) (stored : get_elem? arena k ≡ some n)
    (same : SameLinks n y) (valued : (v : ℕ) → y.value ≡ some v → Route v (label k)) where
  abbrev pub replaced : Arena
  replaced = set arena k y

  at_node : get_elem? replaced k ≡ some y
  at_node = get_elem?-set_self arena k y (get_elem?_bound arena k stored)

  elsewhere : (i : ℕ) → i ≢ k → get_elem? replaced i ≡ get_elem? arena i
  elsewhere i ne = get_elem?-set_ne arena k i y (λ e. ne (sym e))

  -- The node at an index, before and after.
  record Moved (i : ℕ) (m : Node) : Type 0 where
    node : Node
    stored_now : get_elem? replaced i ≡ some node
    prefix_now : node.prefix ≡ m.prefix
    name_now : node.param_name ≡ m.param_name
    param_now : node.param_child ≡ m.param_child
    static_now : (b : ℕ) → static_child node b ≡ static_child m b
    value_now : (v : ℕ) → m.value ≡ some v → (w : ℕ) × (node.value ≡ some w)

  moved : (i : ℕ) (m : Node) → get_elem? arena i ≡ some m → Moved i m
  moved i m h = elim (Bool-cases (i == k)) [
    | inl e ↦
        let at : i ≡ k = (==_iff i k).0 e in
        let m_is : n ≡ m = ground (arith, rw at at h) in
        record {
          node = y;
          stored_now = rw at at_node;
          prefix_now = rw m_is at same.same_prefix;
          name_now = rw m_is at same.same_name;
          param_now = rw m_is at same.same_param;
          static_now = rw m_is at same.same_static;
          value_now = rw m_is at same.still_valued;
        }
    | inr e ↦ record {
      node = m;
      stored_now = elsewhere i (ground arith) ∙ h;
      prefix_now = refl;
      name_now = refl;
      param_now = refl;
      static_now = λ b. refl;
      value_now = λ v g. (v, g);
    }
  ]

  StaticLink-now : (id b c : ℕ) → StaticLink label arena id b c → StaticLink label replaced id b c
  StaticLink-now id b c l =
      let m = moved c l.node l.stored in
      record {
        node = m.node;
        tail = l.tail;
        stored = m.stored_now;
        starts = m.prefix_now ∙ l.starts;
        labelled = rw m.prefix_now l.labelled;
      }

  ParamLink-now : (id p : ℕ) → ParamLink label arena id p → ParamLink label replaced id p
  ParamLink-now id p l =
      let m = moved p l.node l.stored in
      record {
        node = m.node;
        name = l.name;
        stored = m.stored_now;
        empty = m.prefix_now ∙ l.empty;
        named = m.name_now ∙ l.named;
        no_param = m.param_now ∙ l.no_param;
        labelled = l.labelled;
        fresh = l.fresh;
      }

  HasParent-now : (id : ℕ) → HasParent arena id → HasParent replaced id
  HasParent-now id (inl e) = inl e
  HasParent-now id (inr (inl p)) =
      let m = moved p.parent p.node p.stored in
      inr (
        inl (record {
          parent = p.parent;
          node = m.node;
          byte = p.byte;
          stored = m.stored_now;
          link = m.static_now p.byte ∙ p.link;
        }))
  HasParent-now id (inr (inr p)) =
      let m = moved p.parent p.node p.stored in
      inr (
        inr (record {
          parent = p.parent;
          node = m.node;
          stored = m.stored_now;
          link = m.param_now ∙ p.link;
        }))

  sound_old : (id : ℕ) (m : Node) → get_elem? arena id ≡ some m → IsSound Route label replaced id m
  sound_old id m h =
      let o = trie.sound id m h in
      record {
        parallel = o.parallel;
        static_ok = λ b c g. StaticLink-now id b c (o.static_ok b c g);
        param_ok = λ p g. ParamLink-now id p (o.param_ok p g);
        value_ok = o.value_ok;
        named_empty = o.named_empty;
        parent = HasParent-now id o.parent;
      }

  sound_node : IsSound Route label replaced k y
  sound_node =
      let o = trie.sound k n stored in
      record {
        parallel = same.parallel;
        static_ok = λ b c g. StaticLink-now k b c (o.static_ok b c (sym (same.same_static b) ∙ g));
        param_ok = λ p g. ParamLink-now k p (o.param_ok p (sym same.same_param ∙ g));
        value_ok = valued;
        named_empty = λ name g. same.same_prefix ∙ o.named_empty name (sym same.same_name ∙ g);
        parent = HasParent-now k o.parent;
      }

  all_sound :
      (id : ℕ) (m : Node) → get_elem? replaced id ≡ some m → IsSound Route label replaced id m
  all_sound id m h = elim (Bool-cases (id == k)) [
    | inl e ↦
        let at : id ≡ k = (==_iff id k).0 e in
        let m_is : m ≡ y = ground (arith, rw at at h, at_node) in rw (at, m_is) sound_node
    | inr e ↦ sound_old id m (sym (elsewhere id (ground arith)) ∙ h)
  ]

  pub replaced-IsTrie : IsTrie Route label replaced
  replaced-IsTrie =
      let m = moved 0 trie.root trie.root_stored in
      record {
        root = m.node;
        root_stored = m.stored_now;
        root_empty = m.prefix_now ∙ trie.root_empty;
        root_unnamed = m.name_now ∙ trie.root_unnamed;
        root_label = trie.root_label;
        sound = all_sound;
      }

  pub replaced-Terminal : (u : Spelling) → Terminal label arena u → Terminal label replaced u
  replaced-Terminal u t =
      let m = moved t.id t.node t.stored in
      let (w, valued_now) = m.value_now t.index t.valued in
      record {
        id = t.id;
        node = m.node;
        index = w;
        stored = m.stored_now;
        labelled = t.labelled;
        valued = valued_now;
      }

  pub replaced_at : get_elem? replaced k ≡ some y
  replaced_at = at_node
