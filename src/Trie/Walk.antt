-- ===== src/Trie/Walk.antt =====
-- The walks through an arena that reach a route. What they reach is a route whose spelling the path
-- fits.
use rapina.Prelude.{ℕ, ◌≡◌, [], ◌∷◌, ◌++◌, some, Bytes, get_elem?, append_assoc, append-nil, arith}
use rapina.PathParams.{PathParams}
use rapina.Trie.Node.{Node, Arena, static_child}
use rapina.Trie.Lookup.{captured, left_over}
use rapina.Trie.Invariant.{StaticLink, ParamLink, IsTrie}
use rapina.Trie.Spelling.{
  param, Spelling, of_bytes, Fits, done, capture, captured-split, Fits-of_bytes,
}

module _ (arena : Arena) where
  mutual
    -- From a node, its prefix included, the path reaches a route.
    pub data Walk : ℕ → Bytes → ℕ → PathParams → Type 0 where
      enter :
          {id : ℕ} {n : Node} {path rest : Bytes} {v : ℕ} {caps : PathParams}
          → get_elem? arena id ≡ some n
          → path ≡ n.prefix ++ rest
          → After n rest v caps
          → Walk id path v caps

    -- From behind the node's prefix.
    pub data After : Node → Bytes → ℕ → PathParams → Type 0 where
      here : {n : Node} {v : ℕ} → n.value ≡ some v → After n [] v []
      down :
          {n : Node} {b c : ℕ} {path : Bytes} {v : ℕ} {caps : PathParams}
          → static_child n b ≡ some c
          → Walk c (b ∷ path) v caps
          → After n (b ∷ path) v caps
      across :
          {n m : Node} {b p : ℕ} {name path : Bytes} {v : ℕ} {caps : PathParams}
          → n.param_child ≡ some p
          → get_elem? arena p ≡ some m
          → m.param_name ≡ some name
          → Walk p (left_over (b ∷ path)) v caps
          → After n (b ∷ path) v ((name, captured (b ∷ path)) ∷ caps)

module _ {label : ℕ → Spelling} {arena : Arena} where
  static_label :
      {id b c : ℕ} (l : StaticLink label arena id b c) (n : Node)
      → get_elem? arena c ≡ some n
      → label c ≡ label id ++ of_bytes n.prefix
  static_label l n e = ground (arith, l.stored, l.labelled)

  param_label :
      {id p : ℕ} (l : ParamLink label arena id p) {m : Node} {name : Bytes}
      → get_elem? arena p ≡ some m
      → m.param_name ≡ some name
      → (n : Node) → get_elem? arena p ≡ some n
      → label p ≡ (label id ++ param name ∷ []) ++ of_bytes n.prefix
  param_label l {name} found named n e =
      let e1 : n.prefix ≡ [] = ground (arith, l.stored, l.empty) in
      let e2 : l.name ≡ name = ground (arith, l.stored, l.named) in
      rw (e1, append-nil, ← e2) l.labelled

module _ {Route : ℕ → Spelling → Type 0} {label : ℕ → Spelling} {arena : Arena}
    (trie : IsTrie Route label arena) where
  mutual
    -- What a walk reaches is a route, and the path fits the rest of what spells it.
    pub Walk-Fits :
        {id : ℕ} {path : Bytes} {v : ℕ} {caps : PathParams} (base : Spelling)
        → Walk arena id path v caps
        → ((n : Node) → get_elem? arena id ≡ some n → label id ≡ base ++ of_bytes n.prefix)
        → (s : Spelling) × Route v (base ++ s) × Fits s path caps
    Walk-Fits base (enter {id} {n} {rest} stored split after) h =
        let (s, r, f) = After-Fits id stored after in
        let e : label id ≡ base ++ of_bytes n.prefix = h n stored in
        (
          of_bytes n.prefix ++ s,
          rw (← append_assoc base (of_bytes n.prefix) s, ← e) r,
          rw split (Fits-of_bytes n.prefix f),
        )

    After-Fits :
        {n : Node} {path : Bytes} {v : ℕ} {caps : PathParams} (id : ℕ)
        → get_elem? arena id ≡ some n
        → After arena n path v caps
        → (s : Spelling) × Route v (label id ++ s) × Fits s path caps
    After-Fits id stored (here e) =
        ([], rw append-nil ((trie.sound id _ stored).value_ok _ e), done)
    After-Fits id stored (down {b} {c} link walk) =
        let l = (trie.sound id _ stored).static_ok b c link in
        Walk-Fits (label id) walk (λ n' e. static_label l n' e)
    After-Fits id stored (across {b} {p} {name} {path} link found named walk) =
        let l = (trie.sound id _ stored).param_ok p link in
        let (s, r, f) =
          Walk-Fits (label id ++ param name ∷ []) walk (λ n' e. param_label l found named n' e) in
        let (e, v, ends) = captured-split (b ∷ path) in
        (param name ∷ s, rw (append_assoc) at r, capture e v ends f)
