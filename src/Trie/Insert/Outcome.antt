-- ===== src/Trie/Insert/Outcome.antt =====
-- What a part of an insertion gives: a trie with all that it had, and the node where it ends.
use rapina.Prelude.{ℕ, ◌≡◌, ◌∙◌, Option, some, get_elem?}
use rapina.Trie.Node.{Node, Arena}
use rapina.Trie.Spelling.{Spelling}
use rapina.Trie.Invariant.{IsTrie, Terminal}

module _ (Route : ℕ → Spelling → Type 0) (label : ℕ → Spelling) (arena : Arena) where
  pub record Inserted (call : Option (Arena × ℕ)) (target : Spelling) (Ends : Node → Type 0)
      : Type 0 where
    pub after : Arena
    pub id : ℕ
    pub labels : ℕ → Spelling
    pub node : Node
    pub runs : call ≡ some (after, id)
    pub trie : IsTrie Route labels after
    pub stored : get_elem? after id ≡ some node
    pub labelled : labels id ≡ target
    pub kept : (u : Spelling) → Terminal label arena u → Terminal labels after u
    pub ends : Ends node

-- A node that a static segment ends at, and one that a parameter ends at.
abbrev pub IsUnnamed : Node → Type 0
IsUnnamed n = n.param_name ≡ Option.none

abbrev pub IsBare : Node → Type 0
IsBare n = n.prefix ≡ mathlib.Core.List.List.[]

-- The same end, seen from an earlier arena and by another call that runs to the same.
pub Inserted-trans :
    {Route : ℕ → Spelling → Type 0} {label₀ label : ℕ → Spelling} {arena₀ arena : Arena}
    {call₀ call : Option (Arena × ℕ)} {target target₀ : Spelling} {Ends : Node → Type 0}
    → ((u : Spelling) → Terminal label₀ arena₀ u → Terminal label arena u)
    → call₀ ≡ call
    → target ≡ target₀
    → Inserted Route label arena call target Ends
    → Inserted Route label₀ arena₀ call₀ target₀ Ends
Inserted-trans kept same aim r = record {
  after = r.after;
  id = r.id;
  labels = r.labels;
  node = r.node;
  runs = same ∙ r.runs;
  trie = r.trie;
  stored = r.stored;
  labelled = r.labelled ∙ aim;
  kept = λ u t. r.kept u (kept u t);
  ends = r.ends;
}
