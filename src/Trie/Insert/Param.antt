-- ===== src/Trie/Insert/Param.antt =====
-- The parameter child of a node: the one that is there, or a new one.
use rapina.Prelude.{
  ℕ, ◌<◌, ◌≡◌, ◌≢◌, refl, inl, inr, [], ◌∷◌, ◌++◌, some, none, length, get_elem?, arith, Bytes,
  bytes_eq, bytes_eq_iff, bytes_eq_refl, Option-cases, Bool-cases, false,
}
use rapina.PathParams.Laws.{Fresh}
use rapina.Trie.Node.{Node, Arena, static_child, new_node, position}
use rapina.Trie.Spelling.{param, Spelling, names}
use rapina.Trie.Invariant.{ParamLink, IsSound, IsTrie}
use rapina.Trie.Insert.{insert_param}
use rapina.Trie.Insert.Arenas.{
  extended, extended_at, extended_new, get_elem?_bound, relabel, relabel_at,
}
use rapina.Trie.Insert.Extend.{
  Gains, label_old, StaticLink-kept, HasParent-kept, extended-IsTrie, Terminal-kept,
}
use rapina.Trie.Insert.Outcome.{Inserted, IsBare, IsUnnamed}

module _ {Route : ℕ → Spelling → Type 0} {label : ℕ → Spelling} {arena : Arena}
    (trie : IsTrie Route label arena) (k : ℕ) (n : Node) (stored : get_elem? arena k ≡ some n)
    (name : Bytes) (fresh : Fresh name (names (label k))) (unnamed : IsUnnamed n) where
  inside : k < length arena
  inside = get_elem?_bound arena k stored

  o : IsSound Route label arena k n
  o = trie.sound k n stored

  abbrev x : Node
  x = record new_node { param_name = some name }

  abbrev y : Node
  y = record n { param_child = some (length arena) }

  abbrev spelled : Spelling
  spelled = label k ++ param name ∷ []

  abbrev label' : ℕ → Spelling
  label' = relabel (length arena) spelled label

  abbrev arena' : Arena
  arena' = extended arena k x y

  module _ (free : n.param_child ≡ none) where
    gains : Gains n y
    unfolding static_child
    gains = record {
      same_prefix = refl;
      same_name = refl;
      same_value = refl;
      more_static = λ b c h. h;
      more_param = λ p h. cc;
      only_unnamed = inr unnamed;
    }

    at_node : label' k ≡ label k
    at_node = label_old trie k n x y stored gains spelled k stored

    new_link : ParamLink label' arena' k (length arena)
    unfolding new_node
    new_link = record {
      node = x;
      name = name;
      stored = extended_new arena k x y inside;
      empty = refl;
      named = refl;
      no_param = refl;
      labelled = rw at_node (relabel_at (length arena) spelled label);
      fresh = rw at_node fresh;
    }

    sound_gained : IsSound Route label' arena' k y
    unfolding static_child
    sound_gained = record {
      parallel = o.parallel;
      static_ok = λ b c h.
          StaticLink-kept trie k n x y stored gains spelled k b c stored (o.static_ok b c h);
      param_ok = λ p h. let same : p ≡ length arena = ground arith in rw same new_link;
      value_ok = λ v h. rw at_node (o.value_ok v h);
      named_empty = o.named_empty;
      parent = HasParent-kept trie k n x y stored gains spelled k o.parent;
    }

    sound_new : IsSound Route label' arena' (length arena) x
    unfolding new_node static_child
    sound_new = record {
      parallel = refl;
      static_ok = λ b c h. unfold position in cc;
      param_ok = λ p h. cc;
      value_ok = λ v h. cc;
      named_empty = λ name h. refl;
      parent = inr (
          inr (record {
            parent = k;
            node = y;
            stored = extended_at arena k x y inside;
            link = refl;
          }));
    }

    insert_new : Inserted Route label arena (insert_param arena k name) spelled IsBare
    unfolding insert_param new_node
    insert_new = record {
      after = arena';
      id = length arena;
      labels = label';
      node = x;
      runs = rw stored (rw free);
      trie = extended-IsTrie trie k n x y stored gains spelled sound_gained sound_new;
      stored = extended_new arena k x y inside;
      labelled = relabel_at (length arena) spelled label;
      kept = Terminal-kept trie k n x y stored gains spelled;
      ends = refl;
    }

  -- The child that is there is taken if it has the name.
  insert_same :
      (p : ℕ) (link : n.param_child ≡ some p) (l : ParamLink label arena k p)
      → l.name ≡ name
      → Inserted Route label arena (insert_param arena k name) spelled IsBare
  unfolding insert_param
  insert_same p link l e = record {
    after = arena;
    id = p;
    labels = label;
    node = l.node;
    runs = rw stored (rw link (rw l.stored (rw l.named (rw e (rw (bytes_eq_refl name))))));
    trie = trie;
    stored = l.stored;
    labelled = rw (← e) l.labelled;
    kept = λ u t. t;
    ends = l.empty;
  }

  insert_other :
      (p : ℕ) (link : n.param_child ≡ some p) (l : ParamLink label arena k p)
      → bytes_eq l.name name ≡ false
      → insert_param arena k name ≡ none
  unfolding insert_param
  insert_other p link l e = rw stored (rw link (rw l.stored (rw l.named (rw e))))

  same_name :
      (p : ℕ) (link : n.param_child ≡ some p) (l : ParamLink label arena k p)
      → insert_param arena k name ≢ none
      → l.name ≡ name
  same_name p link l runs = elim (Bool-cases (bytes_eq l.name name)) [
    | inl e ↦ (bytes_eq_iff l.name name).0 e
    | inr e ↦ absurd (runs (insert_other p link l e))
  ]

  -- An insertion that does not panic gives the trie with the parameter child.
  pub insert_param_lem :
      insert_param arena k name ≢ none
      → Inserted Route label arena (insert_param arena k name) spelled IsBare
  insert_param_lem runs = elim (Option-cases n.param_child) [
    | inl free ↦ insert_new free
    | inr (p, link) ↦ let l = o.param_ok p link in insert_same p link l (same_name p link l runs)
  ]
