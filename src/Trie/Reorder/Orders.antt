-- ===== src/Trie/Reorder/Orders.antt =====
-- The reordering of children: it does not panic, and it keeps the trie.
use rapina.Prelude.{
  ℕ, zero, suc, ◌≡◌, ◌<◌, ◌+◌, refl, ap, inl, inr, List, [], ◌∷◌, some, All, length, set, leb,
  ◌>>=◌, arith, Bool-cases,
}
use rapina.Trie.Node.{Node, Arena, static_child}
use rapina.Trie.Spelling.{Spelling}
use rapina.Trie.Insert.Replace.{SameLinks}
use rapina.Trie.Distinct.{Distinct, All-get}
use rapina.Trie.Reorder.{
  Ranked, sort_ranked, ranked, with_order, reorder_node, reorder_from, reorder_children,
  compute_priorities,
}
use rapina.Trie.Reorder.Kept.{Good, replaced-Good, get_elem?-some}
use rapina.Trie.Reorder.Children.{
  children_deeper, bytes_of, children_of, sort_ranked-Distinct, child_at-sort_ranked,
}
use rapina.Trie.Reorder.Priorities.{compute_priorities-Good}

record Zipped (arena : Arena) (cs bs : List ℕ) : Type 0 where
  order : List Ranked
  runs : ranked arena cs bs ≡ some order
  children : children_of order ≡ cs
  bytes : bytes_of order ≡ bs

ranked_lem :
    (arena : Arena) (cs bs : List ℕ)
    → All (λ c. c < length arena) cs
    → length bs ≡ length cs
    → Zipped arena cs bs
unfolding ranked
ranked_lem arena [] [] h l = record { order = []; runs = refl; children = refl; bytes = refl }
ranked_lem arena [] (b ∷ bs) h l = absurd (omega arith)
ranked_lem arena (c ∷ cs) [] h l = absurd (omega arith)
ranked_lem arena (c ∷ cs) (b ∷ bs) (low, hs) l =
    let (node, stored) = get_elem?-some arena c low in
    let r = ranked_lem arena cs bs hs (omega arith) in
    record {
      order = record { rank = node.priority; child = c; byte = b } ∷ r.order;
      runs = rw (stored, r.runs) refl;
      children = ap (λ l. c ∷ l) r.children;
      bytes = ap (λ l. b ∷ l) r.bytes;
    }

length-order : (rs : List Ranked) → length (bytes_of rs) ≡ length (children_of rs)
length-order [] = refl
length-order (r ∷ rs) = omega (arith, length-order rs)

All-low : (m : ℕ) (P : ℕ → Type 0) (cs : List ℕ) → All (λ c. (c < m) × P c) cs → All (λ c. c < m) cs
All-low m P [] h = tt
All-low m P (c ∷ cs) ((h, _), hs) = (h, All-low m P cs hs)

module _ (Route : ℕ → Spelling → Type 0) (label : ℕ → Spelling) (base : Arena) where
  ordered-SameLinks :
      (arena : Arena) (n : Node) (z : Zipped arena n.children n.indices)
      → Distinct n.indices
      → SameLinks n (with_order n (sort_ranked z.order))
  unfolding with_order static_child
  ordered-SameLinks arena n z d = record {
    same_prefix = refl;
    same_name = refl;
    same_param = refl;
    same_static = λ b. rw (z.bytes, z.children) at (child_at-sort_ranked b z.order (rw z.bytes d));
    parallel = length-order (sort_ranked z.order);
    still_valued = λ w h. (w, h);
  }

  reorder_node-Good :
      (arena : Arena) (i : ℕ)
      → Good Route label base arena
      → i < length base
      → (after : Arena) × (reorder_node arena i ≡ some after) × Good Route label base after
  unfolding reorder_node
  reorder_node-Good arena i g low =
      let (n, stored) = get_elem?-some arena i (rw g.size low) in
      let d = All-get (λ m. Distinct m.indices) arena i n g.distinct stored in
      elim (Bool-cases (leb (length n.children) 1)) [
        | inl e ↦ (arena, rw (stored, e) refl, g)
        | inr e ↦
            let below = children_deeper g.trie i n stored d in
            let z =
              ranked_lem arena n.children n.indices
                (All-low (length arena) (λ c. length (label i) < length (label c)) n.children below)
                (g.trie.sound i n stored).parallel in
            let y = with_order n (sort_ranked z.order) in
            (
              set arena i y,
              rw (stored, e, z.runs) refl,
              replaced-Good g i n y stored (ordered-SameLinks arena n z d)
                  (unfold with_order in refl)
                  (unfold with_order in (sort_ranked-Distinct z.order (rw z.bytes d)).0),
            )
      ]

  reorder_from-Good :
      (n i : ℕ) (arena : Arena)
      → Good Route label base arena
      → i + n ≡ length base
      → (after : Arena) × (reorder_from n i arena ≡ some after) × Good Route label base after
  unfolding reorder_from
  reorder_from-Good zero i arena g h = (arena, refl, g)
  reorder_from-Good (suc n) i arena g h =
      let (arena', runs, g') = reorder_node-Good arena i g (omega arith) in
      let (after, runs', g'') = reorder_from-Good n (suc i) arena' g' (omega arith) in
      (after, rw runs runs', g'')

  -- The two steps that finish a trie run through, and keep it.
  pub finished-Good :
      (arena : Arena)
      → Good Route label base arena
      → 0 < length base
      → (after : Arena) × ((compute_priorities arena >>= reorder_children) ≡ some after)
        × Good Route label base after
  unfolding reorder_children
  finished-Good arena g some_node =
      let (counted, runs, g') = compute_priorities-Good Route label base arena g some_node in
      let (after, runs', g'') =
        reorder_from-Good (length counted) 0 counted g' (omega (arith, g'.size)) in
      (after, rw runs runs', g'')
