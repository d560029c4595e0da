-- ===== src/Trie/Reorder.antt =====
-- Route counts of subtrees, and the order of children by them.
pub mod Kept
pub mod Children
pub mod Priorities
pub mod Orders
use rapina.Prelude.{
  ℕ, zero, suc, ◌+◌, ◌%◌, ◌^◌, List, [], ◌∷◌, Option, none, some, if◌then◌else◌, leb, length,
  get_elem?, set, ◌>>=◌, is_some, map,
}
use rapina.Trie.Node.{Node, Arena}

-- u32 addition, which wraps in a release build.
abbrev pub add_u32 : ℕ → ℕ → ℕ
add_u32 a b = (a + b) % 2 ^ 32

-- The loop over a node's children, each visited by `visit`, which gives the arena and its count.
unfoldable pub count_children :
    (Arena → ℕ → Option (Arena × ℕ)) → List ℕ → Arena → ℕ → Option (Arena × ℕ)
count_children visit [] arena count = some (arena, count)
count_children visit (child ∷ children) arena count = do
  p ← visit arena child
  count_children visit children p.0 (add_u32 count p.1)

abbrev pub optional : Option ℕ → List ℕ
optional none = []
optional (some p) = p ∷ []

unfoldable pub set_priority : Arena → ℕ → ℕ → Option (Arena × ℕ)
set_priority arena node_id count = do
  node ← get_elem? arena node_id
  some (set arena node_id (record node { priority = count }), count)

-- The fuel bounds the depth, which is below the number of nodes.
unfoldable pub compute_priorities_dfs : ℕ → Arena → ℕ → Option (Arena × ℕ)
unfolding count_children set_priority
compute_priorities_dfs zero arena node_id = none
compute_priorities_dfs (suc fuel) arena node_id = do
  node ← get_elem? arena node_id
  let own : ℕ = if is_some node.value then 1 else 0
  p ← count_children (compute_priorities_dfs fuel) node.children arena own
  q ← count_children (compute_priorities_dfs fuel) (optional node.param_child) p.0 p.1
  set_priority q.0 node_id q.1

unfoldable pub compute_priorities : Arena → Option Arena
unfolding compute_priorities_dfs
compute_priorities arena = do p ← compute_priorities_dfs (length arena) arena 0; some p.0

-- A child with its priority and its byte, as `reorder_children` sorts them.
pub record Ranked : Type 0 where
  pub rank : ℕ
  pub child : ℕ
  pub byte : ℕ

-- `sort_by_key` with `Reverse`: stable, the greatest first.
unfoldable pub insert_ranked : Ranked → List Ranked → List Ranked
insert_ranked r [] = r ∷ []
insert_ranked r (s ∷ ss) = if leb s.rank r.rank then r ∷ s ∷ ss else s ∷ insert_ranked r ss

unfoldable pub sort_ranked : List Ranked → List Ranked
unfolding insert_ranked
sort_ranked [] = []
sort_ranked (r ∷ rs) = insert_ranked r (sort_ranked rs)

-- The zip of children and bytes, with the priorities of the children.
unfoldable pub ranked : Arena → List ℕ → List ℕ → Option (List Ranked)
ranked arena (c ∷ cs) (b ∷ bs) = do
  node ← get_elem? arena c
  rest ← ranked arena cs bs
  some (record { rank = node.priority; child = c; byte = b } ∷ rest)
ranked arena _ _ = some []

unfoldable pub with_order : Node → List Ranked → Node
with_order node order = record node {
  children = map (λ r. r.child) order;
  indices = map (λ r. r.byte) order;
}

unfoldable pub reorder_node : Arena → ℕ → Option Arena
unfolding ranked sort_ranked with_order
reorder_node arena i = do
  node ← get_elem? arena i
  if leb (length node.children) 1 then some arena else (do
    order ← ranked arena node.children node.indices
    some (set arena i (with_order node (sort_ranked order))))

-- `for i in 0..self.arena.len()`, over the rounds left.
unfoldable pub reorder_from : ℕ → ℕ → Arena → Option Arena
unfolding reorder_node
reorder_from zero i arena = some arena
reorder_from (suc n) i arena = do arena' ← reorder_node arena i; reorder_from n (suc i) arena'

unfoldable pub reorder_children : Arena → Option Arena
unfolding reorder_from
reorder_children arena = reorder_from (length arena) 0 arena
