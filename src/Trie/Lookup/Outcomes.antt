-- ===== src/Trie/Lookup/Outcomes.antt =====
-- What a call of the lookup may return, against the walks from the place that it is called at.
use rapina.Prelude.{
  ℕ, ◌+◌, ◌*◌, ◌≡◌, ◌≤◌, ◌⊎◌, [], ◌∷◌, ◌++◌, Option, none, some, Bytes, IsAscii, length, get_elem?,
  append-nil, arith,
}
use rapina.PathParams.{PathParams, keys}
use rapina.Trie.Node.{Node, Arena, static_child}
use rapina.Trie.Lookup.{captured, left_over, Found, Visit}
use rapina.Trie.Spelling.{Spelling, param, of_bytes, names, names-append, names-of_bytes}
use rapina.Trie.Invariant.{StaticLink, ParamLink}
use rapina.Trie.Walk.{Walk}

-- What a call on a node's rest of the path may return.
abbrev pub Outcome : (ℕ → PathParams → Type 0) → PathParams → Found → Type 0
Outcome Reaches params (some v, params') =
    (caps : PathParams) × Reaches v caps × (params' ≡ params ++ caps)
Outcome Reaches params (none, params') =
    (params' ≡ params) × ((v : ℕ) (caps : PathParams) → ¬ Reaches v caps)

pub record Returns (call : Option Found) (Reaches : ℕ → PathParams → Type 0) (params : PathParams)
    : Type 0 where
  pub found : Found
  pub runs : call ≡ some found
  pub outcome : Outcome Reaches params found

-- A call on a path returns, or it panics on a path that is not all ASCII.
abbrev pub Runs : Bytes → Option Found → (ℕ → PathParams → Type 0) → PathParams → Type 0
Runs path call Reaches params = ((call ≡ none) × ¬ IsAscii path) ⊎ Returns call Reaches params

-- Enough fuel for a visit, counted with the bytes of the node's own prefix.
abbrev pub Enough : ℕ → Node → Bytes → Type 0
Enough fuel n path =
    (1 ≤ fuel)
    × (2 * length path + 2 ≤ fuel + 2 * length n.prefix)
    × ((n.param_child ≡ none) ⊎ (2 * length path + 3 ≤ fuel + 2 * length n.prefix))

pub Outcome-map :
    (P Q : ℕ → PathParams → Type 0) (params : PathParams) (found : Found)
    → ((v : ℕ) (caps : PathParams) → P v caps → Q v caps)
    → ((v : ℕ) (caps : PathParams) → Q v caps → P v caps)
    → Outcome P params found
    → Outcome Q params found
Outcome-map P Q params (some v, params') to from (caps, w, e) = (caps, to v caps w, e)
Outcome-map P Q params (none, params') to from (e, no_walk) =
    (e, λ v caps q. no_walk v caps (from v caps q))

module _ (label : ℕ → Spelling) (arena : Arena) where
  abbrev pub IsLookup : ℕ → Visit → Type 0
  IsLookup fuel visit =
      (id : ℕ) (n : Node) (path : Bytes) (params : PathParams)
      → get_elem? arena id ≡ some n
      → keys params ≡ names (label id)
      → Enough fuel n path
      → Runs path (visit id path params) (Walk arena id path) params

module _ (arena : Arena) where
  -- The walks that go on by the static child for the next byte.
  abbrev pub Down : Node → ℕ → Bytes → ℕ → PathParams → Type 0
  Down n b path v caps = (c : ℕ) × (static_child n b ≡ some c) × Walk arena c (b ∷ path) v caps

  -- Those that go on by the parameter child.
  abbrev pub Across : Node → ℕ → Bytes → ℕ → PathParams → Type 0
  Across n b path v caps =
      (p : ℕ) × (m : Node) × (name : Bytes) × (caps' : PathParams) × (n.param_child ≡ some p)
      × (get_elem? arena p ≡ some m)
      × (m.param_name ≡ some name)
      × Walk arena p (left_over (b ∷ path)) v caps'
      × (caps ≡ (name, captured (b ∷ path)) ∷ caps')

module _ {arena : Arena} where
  pub Walk-from :
      {o : Option ℕ} {c d : ℕ} {path : Bytes} {v : ℕ} {caps : PathParams}
      → o ≡ some c
      → o ≡ some d
      → Walk arena c path v caps
      → Walk arena d path v caps
  Walk-from {c} {d} e f w = let same : c ≡ d = ground arith in rw (← same) w

module _ {label : ℕ → Spelling} {arena : Arena} where
  pub names-static :
      {id b c : ℕ} (l : StaticLink label arena id b c) → names (label c) ≡ names (label id)
  names-static {id} l =
      rw
        (l.labelled, names-append (label id) (of_bytes l.node.prefix), names-of_bytes l.node.prefix)
        (append-nil _)

  pub names-param :
      {id p : ℕ} (l : ParamLink label arena id p)
      → names (label p) ≡ names (label id) ++ l.name ∷ []
  names-param {id} l = rw (l.labelled) (names-append (label id) (param l.name ∷ []))
