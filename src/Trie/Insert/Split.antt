-- ===== src/Trie/Insert/Split.antt =====
-- Splitting a node's prefix (`split_node`): the two nodes that the split makes of one.
pub mod Links
pub mod Sound
use rapina.Prelude.{
  ℕ, zero, suc, ◌+◌, ◌<◌, ◌≡◌, ◌≢◌, refl, sym, ap, ◌∙◌, ◌⊎◌, inl, inr, List, [], ◌∷◌, ◌++◌, Option,
  some, none, length, length-append, get_elem?, set, ◌==◌, ==_refl, Bool-cases, ==_iff, arith,
  Bytes, append_assoc, take-append, drop-append, ◌>>=◌,
}
use rapina.Trie.Node.{Node, Arena, static_child, position, alloc}
use rapina.Trie.Spelling.{Symbol, byte, param, Spelling, of_bytes, of_bytes-append, names}
use rapina.Trie.Invariant.{
  StaticLink, ParamLink, StaticParent, ParamParent, HasParent, IsSound, IsTrie, Terminal,
}
use rapina.Trie.Insert.{split_node}
use rapina.Trie.Insert.Arenas.{
  extended, extended_at, extended_new, extended_old, extended_cases, get_elem?_bound, relabel,
  relabel_at, relabel_ne,
}

-- The child takes the rest of the prefix and all links; the node keeps the front of the prefix.
abbrev pub lower : Node → ℕ → Bytes → Node
lower n first q = record n { prefix = first ∷ q }

abbrev pub upper : Node → Bytes → ℕ → ℕ → Node
upper n p first child = record n {
  prefix = p;
  indices = first ∷ [];
  children = child ∷ [];
  param_child = none;
  param_name = none;
  value = none;
}
