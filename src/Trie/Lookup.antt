-- ===== src/Trie/Lookup.antt =====
-- Lookup with backtracking from a static child to the parameter child (`lookup_recursive`).
-- The result is the route's index, if any, and the parameters after the call; `none` is a panic, of
-- an index out of bounds or of a slice inside a character, or no fuel. The debug assertion on the
-- length of the parameters is left out: release builds do not have it.
pub mod Outcomes
pub mod Branches
pub mod Visits
use rapina.Prelude.{
  ℕ, zero, suc, ◌+◌, ◌*◌, List, [], ◌∷◌, Option, none, some, Bytes, slash, strip_prefix, take, drop,
  is_char_boundary, true, false, length, get_elem?, ◌>>=◌,
}
use rapina.PathParams.{PathParams, push, remove}
use rapina.Trie.Node.{Node, Arena, position, until}

abbrev pub Found : Type 0
Found = Option ℕ × PathParams

-- What the parameter child captures of the remaining path, and what it leaves.
unfoldable pub captured : Bytes → Bytes
captured remaining = take (until slash remaining) remaining

unfoldable pub left_over : Bytes → Bytes
left_over remaining = drop (until slash remaining) remaining

abbrev pub push_named : Option Bytes → Bytes → PathParams → PathParams
push_named none value params = params
push_named (some name) value params = push name value params

abbrev pub remove_named : Option Bytes → PathParams → PathParams
remove_named none params = params
remove_named (some name) params = (remove name params).0

-- A hit is returned; after a miss the parameter that was pushed is removed.
abbrev pub settle : Option Bytes → Found → Found
settle name (some v, params) = (some v, params)
settle name (none, params) = (none, remove_named name params)

-- The recursive call of a lookup, on a node, a path and parameters.
abbrev pub Visit : Type 0
Visit = ℕ → Bytes → PathParams → Option Found

unfoldable pub try_param : Visit → Arena → Node → Bytes → PathParams → Option Found
unfolding captured left_over push remove
try_param visit arena node remaining params = elim node.param_child [
  | none ↦ some (none, params)
  | some param_idx ↦ do
    param_node ← get_elem? arena param_idx
    let pushed = push_named param_node.param_name (captured remaining) params
    found ← visit param_idx (left_over remaining) pushed
    some (settle param_node.param_name found)
]

unfoldable pub try_static : Visit → Node → ℕ → Bytes → PathParams → Option Found
try_static visit node next remaining params = elim (position next node.indices) [
  | none ↦ some (none, params)
  | some i ↦ do child ← get_elem? node.children i; visit child remaining params
]

-- The parameter child is tried when the static child has no route.
abbrev pub or_param : (PathParams → Option Found) → Found → Option Found
or_param try (some v, params) = some (some v, params)
or_param try (none, params) = try params

-- The part after the prefix check.
unfoldable pub lookup_rest : Visit → Arena → Node → Bytes → PathParams → Option Found
unfolding try_static try_param
lookup_rest visit arena node [] params = some (node.value, params)
lookup_rest visit arena node (next ∷ rest) params = do
  found ← try_static visit node next (next ∷ rest) params
  or_param (try_param visit arena node (next ∷ rest)) found

unfoldable pub lookup_node : Visit → Arena → Node → Bytes → PathParams → Option Found
unfolding lookup_rest is_char_boundary
lookup_node visit arena node path params = elim (strip_prefix node.prefix path) [
  | none ↦ some (none, params)
  | some remaining ↦ elim (is_char_boundary node.prefix remaining) [
    | true ↦ lookup_rest visit arena node remaining params
    | false ↦ none
  ]
]

unfoldable pub lookup_recursive : ℕ → Arena → ℕ → Bytes → PathParams → Option Found
unfolding lookup_node
lookup_recursive zero arena node_id path params = none
lookup_recursive (suc fuel) arena node_id path params = do
  node ← get_elem? arena node_id
  lookup_node (lookup_recursive fuel arena) arena node path params

-- Two nodes for each byte of the path at most, a parameter node and a static one, and the root.
abbrev pub lookup_fuel : Bytes → ℕ
lookup_fuel path = 3 + 2 * length path

unfoldable pub lookup : Arena → Bytes → PathParams → Option Found
unfolding lookup_recursive
lookup arena path params = lookup_recursive (lookup_fuel path) arena 0 path params
