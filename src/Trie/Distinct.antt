-- ===== src/Trie/Distinct.antt =====
-- No node of an arena that insertions make has two static children for one byte.
use rapina.Prelude.{
  ℕ, zero, suc, ◌≡◌, ◌≢◌, sym, inl, inr, List, [], ◌∷◌, ◌++◌, Option, none, some, Bytes, All,
  All-append, length, get_elem?, set, take, drop, ltb, ◌==◌, if◌then◌else◌, Bool-cases,
  Option-cases, ◌>>=◌, >>=-eq-some, arith,
}
use rapina.Trie.Node.{
  Node, Arena, position, alloc, new_node, new_trie, with_prefix, common_prefix_len,
}
use rapina.Trie.Pattern.{Segment, static, param, split_pattern}
use rapina.Trie.Insert.{
  split_node, add_child, split_if_needed, insert_rest, insert_loop, insert_static, insert_param,
  insert_segment, insert_segments, set_value, insert,
}

abbrev pub Distinct : List ℕ → Type 0
Distinct [] = Unit
Distinct (b ∷ bs) = All (λ c. c ≢ b) bs × Distinct bs

abbrev pub IsDistinct : Arena → Type 0
IsDistinct arena = All (λ n. Distinct n.indices) arena

module _ {ℓ κ} {A : Type ℓ} (P : A → Type κ) where
  pub All-set : (xs : List A) (i : ℕ) (v : A) → All P xs → P v → All P (set xs i v)
  All-set [] i v h p = tt
  All-set (x ∷ xs) zero v (h, hs) p = (p, hs)
  All-set (x ∷ xs) (suc i) v (h, hs) p = (h, All-set xs i v hs p)

  pub All-get : (xs : List A) (i : ℕ) (a : A) → All P xs → get_elem? xs i ≡ some a → P a
  All-get [] i a h e = cc
  All-get (x ∷ xs) zero a (h, hs) e = let same : x ≡ a = cc in rw (← same) h
  All-get (x ∷ xs) (suc i) a (h, hs) e = All-get xs i a hs e

lacks : (b : ℕ) (bs : List ℕ) → position b bs ≡ none → All (λ c. c ≢ b) bs
unfolding position
lacks b [] h = tt
lacks b (c ∷ bs) h = elim (Bool-cases (c == b)) [
  | inl e ↦ cc (rw e at h)
  | inr e ↦ (ground arith, lacks b bs (ground arith))
]

pub Distinct-snoc :
    (bs : List ℕ) (b : ℕ) → Distinct bs → All (λ c. c ≢ b) bs → Distinct (bs ++ b ∷ [])
Distinct-snoc [] b d h = (tt, tt)
Distinct-snoc (c ∷ bs) b (d, ds) (h, hs) =
    (All-append (λ x. x ≢ c) bs (b ∷ []) d ((λ e. h (sym e)), tt), Distinct-snoc bs b ds hs)

-- Every arena that a run gives is distinct.
abbrev Keeps : Option (Arena × ℕ) → Type 0
Keeps run = (p : Arena × ℕ) → run ≡ some p → IsDistinct p.0

abbrev NodeOk : Node → Type 0
NodeOk n = Distinct n.indices

split_node-IsDistinct :
    (arena : Arena) (node at : ℕ) (after : Arena)
    → IsDistinct arena
    → split_node arena node at ≡ some after
    → IsDistinct after
unfolding split_node alloc
split_node-IsDistinct arena node at after d h =
    let (n, stored, h') = >>=-eq-some (get_elem? arena node) _ h in
    let (first, _, h'') = >>=-eq-some (get_elem? n.prefix at) _ h' in
    let own = All-get NodeOk arena node n d stored in
    let kept : Node = record n {
      prefix = take at n.prefix;
      indices = first ∷ [];
      children = length arena ∷ [];
      param_child = none;
      param_name = none;
      value = none;
    } in
    let lower : Node = record n { prefix = drop at n.prefix } in
    let same : set (arena ++ lower ∷ []) node kept ≡ after = cc in
    rw (← same) (
      All-set NodeOk (arena ++ lower ∷ []) node kept
        (All-append NodeOk arena (lower ∷ []) d (own, tt)) (tt, tt))

add_child-IsDistinct :
    (arena : Arena) (current next : ℕ) (node : Node) (rest : Bytes)
    → IsDistinct arena
    → Distinct node.indices
    → position next node.indices ≡ none
    → IsDistinct (add_child arena current node next rest).0
unfolding add_child alloc with_prefix new_node
add_child-IsDistinct arena current next node rest d own free =
    All-set NodeOk (arena ++ with_prefix (next ∷ rest) ∷ []) current _
      (All-append NodeOk arena (with_prefix (next ∷ rest) ∷ []) d (tt, tt))
      (Distinct-snoc node.indices next own (lacks next node.indices free))

insert_rest-IsDistinct :
    (again : ℕ → Bytes → Option (Arena × ℕ)) (arena : Arena) (current : ℕ) (remaining : Bytes)
    → IsDistinct arena
    → ((c : ℕ) (s : Bytes) → Keeps (again c s))
    → Keeps (insert_rest again arena current remaining)
unfolding insert_rest
insert_rest-IsDistinct again arena current [] d ih p h =
    let same : (arena, current) ≡ p = cc in rw (← same) d
insert_rest-IsDistinct again arena current (next ∷ rest) d ih p h =
    let (node, stored, h') = >>=-eq-some (get_elem? arena current) _ h in
    elim (Option-cases (position next node.indices)) [
      | inl free ↦
          let same : add_child arena current node next rest ≡ p = ground arith in
          rw (← same) (
            add_child-IsDistinct arena current next node rest d
              (All-get NodeOk arena current node d stored) free)
      | inr (pos, found) ↦
          let h'' : (get_elem? node.children pos >>= λ child. again child (next ∷ rest)) ≡ some p =
            rw found at h' in
          let (child, _, h3) = >>=-eq-some (get_elem? node.children pos) _ h'' in
          ih child (next ∷ rest) p h3
    ]

insert_loop-IsDistinct :
    (fuel : ℕ) (arena : Arena) (current : ℕ) (remaining : Bytes)
    → IsDistinct arena
    → Keeps (insert_loop fuel arena current remaining)
unfolding insert_loop split_if_needed
insert_loop-IsDistinct zero arena current remaining d p h = cc
insert_loop-IsDistinct (suc fuel) arena current remaining d p h =
    let (node, stored, h') = >>=-eq-some (get_elem? arena current) _ h in
    let n = common_prefix_len node.prefix remaining in
    let (arena', splits, h'') =
      >>=-eq-some (if ltb n (length node.prefix) then split_node arena current n else some arena) _
        h' in
    let d' : IsDistinct arena' = elim (Bool-cases (ltb n (length node.prefix))) [
      | inl e ↦ split_node-IsDistinct arena current n arena' d (rw e at splits)
      | inr e ↦ let same : arena ≡ arena' = cc (rw e at splits) in rw (← same) d
    ] in
    insert_rest-IsDistinct (insert_loop fuel arena') arena' current (drop n remaining) d'
      (λ c s. insert_loop-IsDistinct fuel arena' c s d') p h''

insert_static-IsDistinct :
    (arena : Arena) (start : ℕ) (key : Bytes)
    → IsDistinct arena
    → Keeps (insert_static arena start key)
unfolding insert_static
insert_static-IsDistinct arena start [] d p h = let same : (arena, start) ≡ p = cc in rw (← same) d
insert_static-IsDistinct arena start (b ∷ key) d p h =
    insert_loop-IsDistinct (suc (length (b ∷ key))) arena start (b ∷ key) d p h

insert_param-IsDistinct :
    (arena : Arena) (current : ℕ) (name : Bytes)
    → IsDistinct arena
    → Keeps (insert_param arena current name)
unfolding insert_param alloc new_node
insert_param-IsDistinct arena current name d p h =
    let (node, stored, h') = >>=-eq-some (get_elem? arena current) _ h in
    elim (Option-cases node.param_child) [
      | inl e ↦
          let fresh : Node = record new_node { param_name = some name } in
          let same : (
            set (arena ++ fresh ∷ []) current (record node { param_child = some (length arena) }),
            length arena,
          )
              ≡ p =
            cc (rw e at h') in
          rw (← same) (
            All-set NodeOk (arena ++ fresh ∷ []) current _
              (All-append NodeOk arena (fresh ∷ []) d (tt, tt))
              (All-get NodeOk arena current node d stored))
      | inr (child_id, e) ↦
          let (child, _, h'') = >>=-eq-some (get_elem? arena child_id) _ (rw e at h') in
          let same : (arena, child_id) ≡ p = ground arith in rw (← same) d
    ]

insert_segments-IsDistinct :
    (segs : List Segment) (arena : Arena) (current : ℕ)
    → IsDistinct arena
    → Keeps (insert_segments segs arena current)
unfolding insert_segments insert_segment
insert_segments-IsDistinct [] arena current d p h =
    let same : (arena, current) ≡ p = cc in rw (← same) d
insert_segments-IsDistinct (static s ∷ segs) arena current d p h =
    let (q, first, h') = >>=-eq-some (insert_static arena current s) _ h in
    insert_segments-IsDistinct segs q.0 q.1 (insert_static-IsDistinct arena current s d q first) p
      h'
insert_segments-IsDistinct (param name ∷ segs) arena current d p h =
    let (q, first, h') = >>=-eq-some (insert_param arena current name) _ h in
    insert_segments-IsDistinct segs q.0 q.1 (insert_param-IsDistinct arena current name d q first) p
      h'

-- An insertion keeps the bytes of each node's children distinct.
pub insert-IsDistinct :
    (arena after : Arena) (pattern : Bytes) (idx : ℕ)
    → IsDistinct arena
    → insert arena pattern idx ≡ some after
    → IsDistinct after
unfolding insert set_value
insert-IsDistinct arena after pattern idx d h =
    let (segs, _, h') = >>=-eq-some (split_pattern pattern) _ h in
    let (p, walked, h'') = >>=-eq-some (insert_segments segs arena 0) _ h' in
    let (node, stored, h3) = >>=-eq-some (get_elem? p.0 p.1) _ h'' in
    let d' = insert_segments-IsDistinct segs arena 0 d p walked in
    let same : set p.0 p.1 (record node { value = some idx }) ≡ after = cc in
    rw (← same) (All-set NodeOk p.0 p.1 _ d' (All-get NodeOk p.0 p.1 node d' stored))

pub new_trie-IsDistinct : IsDistinct new_trie
unfolding new_trie new_node
new_trie-IsDistinct = (tt, tt)
