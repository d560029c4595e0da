-- ===== src/Trie/Insert/Split/Links.antt =====
-- The links and the parents of the other nodes after a split.
use rapina.Prelude.{
  ℕ, ◌<◌, ◌≡◌, ◌≢◌, refl, sym, ap, ◌∙◌, inl, inr, List, [], ◌∷◌, ◌++◌, some, length, length-append,
  get_elem?, ◌==◌, Bool-cases, ==_iff, arith, Bytes, take-append, drop-append,
}
use rapina.Trie.Node.{Node, Arena, static_child}
use rapina.Trie.Spelling.{Spelling, of_bytes}
use rapina.Trie.Invariant.{StaticLink, ParamLink, StaticParent, ParamParent, HasParent, IsTrie}
use rapina.Trie.Insert.{split_node}
use rapina.Trie.Insert.Split.{lower, upper}
use rapina.Trie.Insert.Arenas.{
  extended, extended_at, extended_new, extended_old, get_elem?_bound, relabel, relabel_at,
  relabel_ne,
}

append_cancel_right {ℓ} : {A : Type ℓ} (a b c : List A) → a ++ c ≡ b ++ c → a ≡ b
append_cancel_right [] [] c e = refl
append_cancel_right [] (y ∷ b) c e =
    absurd (omega (arith, ap length e, length-append {ℓ} (y ∷ b) c))
append_cancel_right (x ∷ a) [] c e =
    absurd (omega (arith, ap length e, length-append {ℓ} (x ∷ a) c))
append_cancel_right (x ∷ a) (y ∷ b) c e =
    let tails : a ++ c ≡ b ++ c = cc in
    let heads : x ≡ y = cc in cc (append_cancel_right a b c tails)

not_longer : (s : Spelling) (b : ℕ) (t : Bytes) → s ≢ s ++ of_bytes (b ∷ t)
not_longer s b t e = omega (arith, ap length e, length-append {0} s (of_bytes (b ∷ t)))

get_elem?-middle : (p : Bytes) (c : ℕ) (q : Bytes) → get_elem? (p ++ c ∷ q) (length p) ≡ some c
get_elem?-middle [] c q = refl
get_elem?-middle (d ∷ p) c q = get_elem?-middle p c q

module _ (arena : Arena) (k : ℕ) (n : Node) (stored : get_elem? arena k ≡ some n) (b : ℕ)
    (p' : Bytes) (first : ℕ) (q : Bytes) (split : n.prefix ≡ (b ∷ p') ++ first ∷ q) where
  abbrev pub p : Bytes
  p = b ∷ p'

  abbrev pub x : Node
  x = lower n first q

  abbrev pub y : Node
  y = upper n p first (length arena)

  abbrev pub arena' : Arena
  arena' = extended arena k x y

  pub inside : k < length arena
  inside = get_elem?_bound arena k stored

  pub split_node_runs : split_node arena k (length p) ≡ some arena'
  unfolding split_node
  split_node_runs = rw stored (
      rw split
        (rw (get_elem?-middle p first q, take-append p (first ∷ q), drop-append p (first ∷ q))))

  module _ {Route : ℕ → Spelling → Type 0} {label : ℕ → Spelling} (trie : IsTrie Route label arena)
      (base : Spelling) (labelled : label k ≡ base ++ of_bytes n.prefix) where
    abbrev pub label' : ℕ → Spelling
    label' = relabel (length arena) (label k) (relabel k (base ++ of_bytes p) label)

    pub label_at : label' k ≡ base ++ of_bytes p
    label_at =
        relabel_ne (length arena) (label k) (relabel k (base ++ of_bytes p) label) k
          (omega (arith, inside))
        ∙ relabel_at k (base ++ of_bytes p) label

    pub label_new : label' (length arena) ≡ label k
    label_new = relabel_at (length arena) (label k) (relabel k (base ++ of_bytes p) label)

    pub label_old : (i : ℕ) {m : Node} → get_elem? arena i ≡ some m → i ≢ k → label' i ≡ label i
    label_old i h ne =
        relabel_ne (length arena) (label k) (relabel k (base ++ of_bytes p) label) i
          (omega (arith, get_elem?_bound arena i h))
        ∙ relabel_ne k (base ++ of_bytes p) label i ne

    -- No node is its own child.
    no_loop : (d c : ℕ) → StaticLink label arena k d c → c ≢ k
    no_loop d c l e = not_longer (label k) d l.tail (rw (e, l.starts) at l.labelled)

    param_ne : (id c : ℕ) → ParamLink label arena id c → c ≢ k
    param_ne id c l e =
        let same : l.node ≡ n = ground (arith, rw e at l.stored) in
        let empty : n.prefix ≡ [] = rw same at l.empty in cc (sym split ∙ empty)

    pub StaticLink-above :
        (id d c : ℕ) {m : Node}
        → get_elem? arena id ≡ some m
        → id ≢ k
        → StaticLink label arena id d c
        → StaticLink label' arena' id d c
    StaticLink-above id d c held ne l = elim (Bool-cases (c == k)) [
      | inl e ↦
          let same : c ≡ k = (==_iff c k).0 e in
          let node_same : l.node ≡ n = ground (arith, rw same at l.stored) in
          let starts : n.prefix ≡ d ∷ l.tail = rw node_same at l.starts in
          let same_byte : b ≡ d = cc (sym split ∙ starts) in
          let links : label k ≡ label id ++ of_bytes n.prefix =
            rw (same, node_same) at l.labelled in
          let same_base : base ≡ label id =
            append_cancel_right base (label id) (of_bytes n.prefix) (sym labelled ∙ links) in
          record {
            node = y;
            tail = p';
            stored = rw same (extended_at arena k x y inside);
            starts = rw same_byte;
            labelled = rw (same, label_at, label_old id held ne, same_base);
          }
      | inr e ↦ record {
        node = l.node;
        tail = l.tail;
        stored = extended_old arena k x y inside c l.stored (ground arith);
        starts = l.starts;
        labelled = rw (label_old c l.stored (ground arith), label_old id held ne) l.labelled;
      }
    ]

    -- The links of the node are those of its new child.
    pub StaticLink-below :
        (d c : ℕ) → StaticLink label arena k d c → StaticLink label' arena' (length arena) d c
    StaticLink-below d c l = record {
      node = l.node;
      tail = l.tail;
      stored = extended_old arena k x y inside c l.stored (no_loop d c l);
      starts = l.starts;
      labelled = rw (label_old c l.stored (no_loop d c l), label_new) l.labelled;
    }

    pub ParamLink-above :
        (id c : ℕ) {m : Node}
        → get_elem? arena id ≡ some m
        → id ≢ k
        → ParamLink label arena id c
        → ParamLink label' arena' id c
    ParamLink-above id c held ne l = record {
      node = l.node;
      name = l.name;
      stored = extended_old arena k x y inside c l.stored (param_ne id c l);
      empty = l.empty;
      named = l.named;
      no_param = l.no_param;
      labelled = rw (label_old c l.stored (param_ne id c l), label_old id held ne) l.labelled;
      fresh = rw (label_old id held ne) l.fresh;
    }

    pub ParamLink-below :
        (c : ℕ) → ParamLink label arena k c → ParamLink label' arena' (length arena) c
    ParamLink-below c l = record {
      node = l.node;
      name = l.name;
      stored = extended_old arena k x y inside c l.stored (param_ne k c l);
      empty = l.empty;
      named = l.named;
      no_param = l.no_param;
      labelled = rw (label_old c l.stored (param_ne k c l), label_new) l.labelled;
      fresh = rw label_new l.fresh;
    }

    StaticParent-moved : (id : ℕ) → StaticParent arena id → StaticParent arena' id
    unfolding static_child
    StaticParent-moved id o = elim (Bool-cases (o.parent == k)) [
      | inl e ↦
          let same : o.parent ≡ k = (==_iff o.parent k).0 e in
          let node_same : o.node ≡ n = ground (arith, rw same at o.stored) in
          record {
            parent = length arena;
            node = x;
            byte = o.byte;
            stored = extended_new arena k x y inside;
            link = rw node_same at o.link;
          }
      | inr e ↦ record {
        parent = o.parent;
        node = o.node;
        byte = o.byte;
        stored = extended_old arena k x y inside o.parent o.stored (ground arith);
        link = o.link;
      }
    ]

    ParamParent-moved : (id : ℕ) → ParamParent arena id → ParamParent arena' id
    ParamParent-moved id o = elim (Bool-cases (o.parent == k)) [
      | inl e ↦
          let same : o.parent ≡ k = (==_iff o.parent k).0 e in
          let node_same : o.node ≡ n = ground (arith, rw same at o.stored) in
          record {
            parent = length arena;
            node = x;
            stored = extended_new arena k x y inside;
            link = rw node_same at o.link;
          }
      | inr e ↦ record {
        parent = o.parent;
        node = o.node;
        stored = extended_old arena k x y inside o.parent o.stored (ground arith);
        link = o.link;
      }
    ]

    pub HasParent-moved : (id : ℕ) → HasParent arena id → HasParent arena' id
    HasParent-moved id (inl e) = inl e
    HasParent-moved id (inr (inl o)) = inr (inl (StaticParent-moved id o))
    HasParent-moved id (inr (inr o)) = inr (inr (ParamParent-moved id o))
