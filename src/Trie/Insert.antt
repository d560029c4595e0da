-- ===== src/Trie/Insert.antt =====
-- Insertion into the arena (`insert`, `insert_static`, `split_node`).
pub mod Arenas
pub mod Extend
pub mod Split
pub mod Outcome
pub mod Child
pub mod Param
pub mod Rounds
pub mod Static
pub mod Replace
pub mod Whole
use rapina.Prelude.{
  ℕ, zero, suc, Bool, true, false, List, [], ◌∷◌, ◌++◌, Option, none, some, if◌then◌else◌, ltb,
  Bytes, bytes_eq, length, take, drop, get_elem?, set, is_empty, ◌>>=◌,
}
use rapina.Trie.Node.{Node, Arena, new_node, with_prefix, alloc, position, common_prefix_len}
use rapina.Trie.Pattern.{Segment, static, param, split_pattern}

-- The node keeps the prefix up to `at`; a new child takes the rest of it and all else.
unfoldable pub split_node : Arena → ℕ → ℕ → Option Arena
unfolding alloc
split_node arena node at = do
  n ← get_elem? arena node
  first_byte ← get_elem? n.prefix at
  let child = length arena
  let kept = record n {
    prefix = take at n.prefix;
    indices = first_byte ∷ [];
    children = child ∷ [];
    param_child = none;
    param_name = none;
    value = none;
  }
  some (set (alloc arena (record n { prefix = drop at n.prefix })).0 node kept)

-- A new child with the remaining bytes as its prefix.
unfoldable pub add_child : Arena → ℕ → Node → ℕ → Bytes → Arena × ℕ
unfolding alloc with_prefix
add_child arena current node next rest =
    let (arena', child) = alloc arena (with_prefix (next ∷ rest)) in
    (
      set arena' current (record node {
        indices = node.indices ++ next ∷ [];
        children = node.children ++ child ∷ [];
      }),
      child,
    )

-- The split at the start of a round, when the prefix is longer than what it shares with the key.
unfoldable pub split_if_needed : Arena → ℕ → Node → ℕ → Option Arena
unfolding split_node
split_if_needed arena current node prefix_len =
    if ltb prefix_len (length node.prefix) then split_node arena current prefix_len else some arena

-- The rest of a round, once the common prefix is cut off; `again` is the next round.
unfoldable pub insert_rest :
    (ℕ → Bytes → Option (Arena × ℕ)) → Arena → ℕ → Bytes → Option (Arena × ℕ)
unfolding add_child
insert_rest again arena current [] = some (arena, current)
insert_rest again arena current (next ∷ rest) = do
  node ← get_elem? arena current
  elim (position next node.indices) [
    | some pos ↦ do child ← get_elem? node.children pos; again child (next ∷ rest)
    | none ↦ some (add_child arena current node next rest)
  ]

-- The `loop` of `insert_static`. Each round after the first takes a byte of the key.
unfoldable pub insert_loop : ℕ → Arena → ℕ → Bytes → Option (Arena × ℕ)
insert_loop zero arena current remaining = none
insert_loop (suc fuel) arena current remaining = do
  node ← get_elem? arena current
  let prefix_len = common_prefix_len node.prefix remaining
  arena' ← split_if_needed arena current node prefix_len
  insert_rest (insert_loop fuel arena') arena' current (drop prefix_len remaining)

unfoldable pub insert_static : Arena → ℕ → Bytes → Option (Arena × ℕ)
unfolding insert_loop split_if_needed insert_rest
insert_static arena start key =
    if is_empty key then some (arena, start) else insert_loop (suc (length key)) arena start key

-- The parameter child of a node, made if there is none; another name at its place panics.
unfoldable pub insert_param : Arena → ℕ → Bytes → Option (Arena × ℕ)
unfolding alloc new_node
insert_param arena current name = do
  node ← get_elem? arena current
  elim node.param_child [
    | some child_id ↦ do
      child ← get_elem? arena child_id
      elim child.param_name [
        | some existing ↦ if bytes_eq existing name then some (arena, child_id) else none
        | none ↦ some (arena, child_id)
      ]
    | none ↦
        let (arena', id) = alloc arena (record new_node { param_name = some name }) in
        some (set arena' current (record node { param_child = some id }), id)
  ]

unfoldable pub insert_segment : Segment → Arena → ℕ → Option (Arena × ℕ)
unfolding insert_static insert_param
insert_segment (static bytes) arena current = insert_static arena current bytes
insert_segment (param name) arena current = insert_param arena current name

unfoldable pub insert_segments : List Segment → Arena → ℕ → Option (Arena × ℕ)
unfolding insert_segment
insert_segments [] arena current = some (arena, current)
insert_segments (seg ∷ segs) arena current = do
  p ← insert_segment seg arena current
  insert_segments segs p.0 p.1

-- The last write of `insert`.
unfoldable pub set_value : Arena → ℕ → ℕ → Option Arena
set_value arena current route_index = do
  node ← get_elem? arena current
  some (set arena current (record node { value = some route_index }))

unfoldable pub insert : Arena → Bytes → ℕ → Option Arena
insert arena pattern route_index = do
  segments ← split_pattern pattern
  p ← insert_segments segments arena 0
  set_value p.0 p.1 route_index
