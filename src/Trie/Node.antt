-- ===== src/Trie/Node.antt =====
-- Arena nodes, and the methods that have a trie.
use rapina.Prelude.{
  ℕ, suc, List, [], ◌∷◌, ◌++◌, Option, none, some, ◌==◌, if◌then◌else◌, Bytes, bytes_eq, codes,
  length, get_elem?, ◌>>=◌,
}

pub record Node : Type 0 where
  pub prefix : Bytes
  pub indices : List ℕ
  pub children : List ℕ
  pub param_child : Option ℕ
  pub param_name : Option Bytes
  pub value : Option ℕ
  pub priority : ℕ  -- u32

abbrev pub Arena : Type 0
Arena = List Node

-- An `http::Method` is its `as_str`.
abbrev pub Method : Type 0
Method = Bytes

abbrev pub num_standard_methods : ℕ
num_standard_methods = 9

unfoldable pub index_in : Method → List Bytes → Option ℕ
index_in m [] = none
index_in m (s ∷ ss) =
    if bytes_eq m s then some 0 else elim (index_in m ss) [ none ↦ none | some i ↦ some (suc i) ]

abbrev pub standard_methods : List Bytes
standard_methods =
    codes "GET"
    ∷ codes "POST"
    ∷ codes "PUT"
    ∷ codes "DELETE"
    ∷ codes "HEAD"
    ∷ codes "OPTIONS"
    ∷ codes "PATCH"
    ∷ codes "CONNECT"
    ∷ codes "TRACE"
    ∷ []

unfoldable pub method_index : Method → Option ℕ
unfolding index_in
method_index m = index_in m standard_methods

unfoldable pub new_node : Node
new_node = record {
  prefix = [];
  indices = [];
  children = [];
  param_child = none;
  param_name = none;
  value = none;
  priority = 0;
}

unfoldable pub with_prefix : Bytes → Node
unfolding new_node
with_prefix prefix = record new_node { prefix = prefix }

-- `RadixTrie::new`: a root that matches the empty text.
unfoldable pub new_trie : Arena
unfolding new_node
new_trie = new_node ∷ []

-- The arena with the node at its end, and the node's index.
unfoldable pub alloc : Arena → Node → Arena × ℕ
alloc arena node = (arena ++ node ∷ [], length arena)

-- `iter().position(|&b| b == next)`.
unfoldable pub position : ℕ → List ℕ → Option ℕ
position b [] = none
position b (c ∷ cs) =
    if c == b then some 0 else elim (position b cs) [ none ↦ none | some i ↦ some (suc i) ]

-- `position(..).unwrap_or(len)`.
unfoldable pub until : ℕ → Bytes → ℕ
until b [] = 0
until b (c ∷ s) = if c == b then 0 else suc (until b s)

-- The static child for a byte.
unfoldable pub static_child : Node → ℕ → Option ℕ
static_child node b = position b node.indices >>= get_elem? node.children

unfoldable pub common_prefix_len : Bytes → Bytes → ℕ
common_prefix_len (a ∷ xs) (b ∷ ys) = if a == b then suc (common_prefix_len xs ys) else 0
common_prefix_len _ _ = 0
