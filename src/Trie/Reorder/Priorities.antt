-- ===== src/Trie/Reorder/Priorities.antt =====
-- The depth-first search of the priorities: it ends, its fuel is enough, and it keeps the trie.
use rapina.Prelude.{
  ℕ, zero, suc, true, false, ◌≡◌, ◌<◌, ◌≤◌, refl, inl, inr, List, [], ◌∷◌, Option, none, some, All,
  length, get_elem?, set, if◌then◌else◌, ltb, is_some, ◌>>=◌, arith, Bool-cases, ◌==◌,
}
use rapina.Trie.Node.{Node, Arena, static_child}
use rapina.Trie.Spelling.{Spelling}
use rapina.Trie.Insert.Arenas.{get_elem?_bound}
use rapina.Trie.Insert.Replace.{SameLinks}
use rapina.Trie.Distinct.{Distinct, All-get}
use rapina.Trie.Reorder.{
  add_u32, count_children, optional, set_priority, compute_priorities_dfs, compute_priorities,
}
use rapina.Trie.Reorder.Kept.{Good, replaced-Good, get_elem?-some, param_deeper}
use rapina.Trie.Reorder.Children.{children_deeper}

-- How many of the first `n` nodes lie deeper than `depth`.
deeper : (ℕ → Spelling) → ℕ → ℕ → ℕ
deeper label zero depth = 0
deeper label (suc n) depth =
    let rest = deeper label n depth in if ltb depth (length (label n)) then suc rest else rest

deeper_mono : (label : ℕ → Spelling) (n d e : ℕ) → d ≤ e → deeper label n e ≤ deeper label n d
unfolding deeper
deeper_mono label zero d e h = omega arith
deeper_mono label (suc n) d e h = ground (arith, deeper_mono label n d e h)

-- A node that lies deeper is one of them.
deeper_less :
    (label : ℕ → Spelling) (n c d : ℕ)
    → c < n
    → d < length (label c)
    → deeper label n (length (label c)) < deeper label n d
unfolding deeper
deeper_less label zero c d h k = absurd (omega arith)
deeper_less label (suc n) c d h k = elim (Bool-cases (c == n)) [
  | inl e ↦
      let same : n ≡ c = ground arith in
      let less = deeper_mono label n d (length (label c)) (omega arith) in
      let counted : ltb d (length (label n)) ≡ true = rw same (ground arith) in
      let left_out : ltb (length (label c)) (length (label n)) ≡ false = rw same (ground arith) in
      rw (counted, left_out) (omega arith)
  | inr e ↦ let less = deeper_less label n c d (ground arith) k in ground arith
]

deeper_root : (label : ℕ → Spelling) (n : ℕ) → 0 < n → label 0 ≡ [] → deeper label n 0 < n
unfolding deeper
deeper_root label zero h e = absurd (omega arith)
deeper_root label (suc zero) h e = rw e (omega arith)
deeper_root label (suc (suc n)) h e = ground (arith, deeper_root label (suc n) (omega arith) e)

module _ (Route : ℕ → Spelling → Type 0) (label : ℕ → Spelling) (base : Arena) where
  abbrev Keeps : Arena → Type 0
  Keeps arena = Good Route label base arena

  -- A run that counts, and leaves the arena good.
  record Counts (call : Option (Arena × ℕ)) : Type 0 where
    after : Arena
    count : ℕ
    runs : call ≡ some (after, count)
    good : Keeps after

  -- A visit of each node that lies deeper than `depth` counts.
  abbrev Visits : (Arena → ℕ → Option (Arena × ℕ)) → ℕ → Type 0
  Visits visit depth =
      (arena : Arena) (c : ℕ)
      → Keeps arena
      → c < length base
      → depth < length (label c)
      → Counts (visit arena c)

  count_children_lem :
      (visit : Arena → ℕ → Option (Arena × ℕ)) (depth : ℕ)
      → Visits visit depth
      → (cs : List ℕ) (arena : Arena) (count : ℕ) → Keeps arena
      → All (λ c. (c < length base) × (depth < length (label c))) cs
      → Counts (count_children visit cs arena count)
  unfolding count_children
  count_children_lem visit depth v [] arena count g h = record {
    after = arena;
    count = count;
    runs = refl;
    good = g;
  }
  count_children_lem visit depth v (c ∷ cs) arena count g ((low, deep), hs) =
      let r = v arena c g low deep in
      let q = count_children_lem visit depth v cs r.after (add_u32 count r.count) r.good hs in
      record { after = q.after; count = q.count; runs = rw (r.runs) q.runs; good = q.good }

  set_priority_lem :
      (arena : Arena) (id count : ℕ)
      → Keeps arena
      → id < length base
      → Counts (set_priority arena id count)
  unfolding set_priority static_child
  set_priority_lem arena id count g low =
      let (n, stored) = get_elem?-some arena id (rw g.size low) in
      let y : Node = record n { priority = count } in
      let o = g.trie.sound id n stored in
      let same : SameLinks n y = record {
        same_prefix = refl;
        same_name = refl;
        same_param = refl;
        same_static = λ b. refl;
        parallel = o.parallel;
        still_valued = λ w h. (w, h);
      } in
      record {
        after = set arena id y;
        count = count;
        runs = rw stored refl;
        good =
            replaced-Good g id n y stored same refl
              (All-get (λ m. Distinct m.indices) arena id n g.distinct stored);
      }

  dfs_node :
      (visit : Arena → ℕ → Option (Arena × ℕ)) (arena : Arena) (id : ℕ) (n : Node) (own : ℕ)
      → Keeps arena
      → id < length base
      → get_elem? arena id ≡ some n
      → Visits visit (length (label id))
      → Counts (
          count_children visit n.children arena own >>= λ p.
          count_children visit (optional n.param_child) p.0 p.1 >>= λ q. set_priority q.0 id q.1)
  dfs_node visit arena id n own g low stored v =
      let depth = length (label id) in
      let own_distinct = All-get (λ m. Distinct m.indices) arena id n g.distinct stored in
      let below = children_deeper g.trie id n stored own_distinct in
      let p = count_children_lem visit depth v n.children arena own g (rw g.size at below) in
      let q =
        count_children_lem visit depth v (optional n.param_child) p.after p.count p.good
          (param_below n.param_child refl) in
      let r = set_priority_lem q.after id q.count q.good low in
      record { after = r.after; count = r.count; runs = rw (p.runs, q.runs) r.runs; good = r.good }
    where
      param_below :
          (o : Option ℕ)
          → n.param_child ≡ o
          → All (λ c. (c < length base) × (length (label id) < length (label c))) (optional o)
      param_below none e = tt
      param_below (some c) e =
          let l = (g.trie.sound id n stored).param_ok c e in
          ((rw g.size at (get_elem?_bound arena c l.stored), param_deeper l), tt)

  dfs_lem :
      (fuel : ℕ) (arena : Arena) (id : ℕ)
      → Keeps arena
      → id < length base
      → deeper label (length base) (length (label id)) < fuel
      → Counts (compute_priorities_dfs fuel arena id)
  unfolding compute_priorities_dfs
  dfs_lem zero arena id g low enough = absurd (omega arith)
  dfs_lem (suc fuel) arena id g low enough =
      let (n, stored) = get_elem?-some arena id (rw g.size low) in
      let r =
        dfs_node (compute_priorities_dfs fuel) arena id n (if is_some n.value then 1 else 0) g low
          stored
          (λ a c k inside deep.
            dfs_lem fuel a c k inside
              (omega (arith, deeper_less label (length base) c (length (label id)) inside deep))) in
      record { after = r.after; count = r.count; runs = rw stored r.runs; good = r.good }

  pub compute_priorities-Good :
      (arena : Arena)
      → Keeps arena
      → 0 < length base
      → (after : Arena) × (compute_priorities arena ≡ some after) × Keeps after
  unfolding compute_priorities
  compute_priorities-Good arena g some_node =
      let root = deeper_root label (length base) some_node g.trie.root_label in
      let depth : length (label 0) ≡ 0 = rw g.trie.root_label refl in
      let r = dfs_lem (length arena) arena 0 g some_node (rw (g.size, g.trie.root_label) root) in
      (r.after, rw r.runs refl, r.good)
