-- ===== src/Trie/Invariant.antt =====
-- The invariant of an arena whose nodes are labelled by what spells the way to them: a link goes to
-- a node whose label goes on from the label of the node that holds it.
use rapina.Prelude.{ℕ, ◌≡◌, ◌⊎◌, [], ◌∷◌, ◌++◌, some, none, Bytes, length, get_elem?}
use rapina.PathParams.Laws.{Fresh}
use rapina.Trie.Node.{Node, Arena, static_child}
use rapina.Trie.Spelling.{param, Spelling, of_bytes, names}

module _ (label : ℕ → Spelling) (arena : Arena) where
  pub record StaticLink (id b c : ℕ) : Type 0 where
    pub node : Node
    pub tail : Bytes
    pub stored : get_elem? arena c ≡ some node
    pub starts : node.prefix ≡ b ∷ tail
    pub labelled : label c ≡ label id ++ of_bytes node.prefix

  pub record ParamLink (id p : ℕ) : Type 0 where
    pub node : Node
    pub name : Bytes
    pub stored : get_elem? arena p ≡ some node
    pub empty : node.prefix ≡ []
    pub named : node.param_name ≡ some name
    pub no_param : node.param_child ≡ none
    pub labelled : label p ≡ label id ++ param name ∷ []
    pub fresh : Fresh name (names (label id))

module _ (arena : Arena) where
  pub record StaticParent (id : ℕ) : Type 0 where
    pub parent : ℕ
    pub node : Node
    pub byte : ℕ
    pub stored : get_elem? arena parent ≡ some node
    pub link : static_child node byte ≡ some id

  pub record ParamParent (id : ℕ) : Type 0 where
    pub parent : ℕ
    pub node : Node
    pub stored : get_elem? arena parent ≡ some node
    pub link : node.param_child ≡ some id

  abbrev pub HasParent : ℕ → Type 0
  HasParent id = (id ≡ 0) ⊎ (StaticParent id ⊎ ParamParent id)

module _ (Route : ℕ → Spelling → Type 0) (label : ℕ → Spelling) (arena : Arena) where
  pub record IsSound (id : ℕ) (n : Node) : Type 0 where
    pub parallel : length n.indices ≡ length n.children
    pub static_ok : (b c : ℕ) → static_child n b ≡ some c → StaticLink label arena id b c
    pub param_ok : (p : ℕ) → n.param_child ≡ some p → ParamLink label arena id p
    pub value_ok : (v : ℕ) → n.value ≡ some v → Route v (label id)
    pub named_empty : (name : Bytes) → n.param_name ≡ some name → n.prefix ≡ []
    pub parent : HasParent arena id

  pub record IsTrie : Type 0 where
    pub root : Node
    pub root_stored : get_elem? arena 0 ≡ some root
    pub root_empty : root.prefix ≡ []
    pub root_unnamed : root.param_name ≡ none
    pub root_label : label 0 ≡ []
    pub sound : (id : ℕ) (n : Node) → get_elem? arena id ≡ some n → IsSound id n

-- A node that ends a route of the spelling.
module _ (label : ℕ → Spelling) (arena : Arena) where
  pub record Terminal (s : Spelling) : Type 0 where
    pub id : ℕ
    pub node : Node
    pub index : ℕ
    pub stored : get_elem? arena id ≡ some node
    pub labelled : label id ≡ s
    pub valued : node.value ≡ some index
