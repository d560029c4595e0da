-- ===== src/Trie/Insert/Rounds.antt =====
-- The rest of a round of `insert_static`, behind the prefix that is shared.
use rapina.Prelude.{
  ℕ, suc, ◌<◌, ◌≤◌, ◌≡◌, ◌≢◌, refl, sym, ap, ◌∙◌, ◌⊎◌, inl, inr, [], ◌∷◌, ◌++◌, Option, some, none,
  length, get_elem?, drop, arith, Bytes, append-nil, ◌==◌, Option-cases, Bool-cases, ==_iff, false,
}
use rapina.Trie.Node.{Node, Arena, static_child, position, common_prefix_len, with_prefix}
use rapina.Trie.Spelling.{Spelling, of_bytes}
use rapina.Trie.Invariant.{IsSound, IsTrie}
use rapina.Trie.Lookup.Branches.{position_bound, get_elem_in}
use rapina.Trie.Insert.{insert_loop, insert_rest, split_if_needed, split_node, add_child}
use rapina.Trie.Insert.Arenas.{extended_new, get_elem?_bound, relabel_at}
use rapina.Trie.Insert.Outcome.{Inserted, IsUnnamed}
use rapina.Trie.Insert.Child.{add_child-IsTrie, add_child-Terminal, child_label}

-- The two texts apart from what they share at the front.
pub record Shared (p r : Bytes) : Type 0 where
  pub common : Bytes
  pub left : Bytes
  pub right : Bytes
  pub on_left : p ≡ common ++ left
  pub on_right : r ≡ common ++ right
  pub count : common_prefix_len p r ≡ length common
  pub from_first : (b : ℕ) (t s : Bytes) → p ≡ b ∷ t → r ≡ b ∷ s → (c : Bytes) × (common ≡ b ∷ c)

Shared-nil : (p r : Bytes) → ((p ≡ []) ⊎ (r ≡ [])) → common_prefix_len p r ≡ 0 → Shared p r
Shared-nil p r e count = record {
  common = [];
  left = p;
  right = r;
  on_left = refl;
  on_right = refl;
  count = count;
  from_first = λ b t s f g. elim e [ inl h ↦ cc | inr h ↦ cc ];
}

pub shared : (p r : Bytes) → Shared p r
unfolding common_prefix_len
shared [] r = Shared-nil [] r (inl refl) refl
shared (a ∷ p) [] = Shared-nil (a ∷ p) [] (inr refl) refl
shared (a ∷ p) (b ∷ r) = elim (Bool-cases (a == b)) [
  | inl e ↦
      let same : a ≡ b = (==_iff a b).0 e in
      let s = shared p r in
      record {
        common = a ∷ s.common;
        left = s.left;
        right = s.right;
        on_left = ap (λ t. a ∷ t) s.on_left;
        on_right = rw same (ap (λ t. b ∷ t) s.on_right);
        count = rw e (ap suc s.count);
        from_first = λ d t u f g. (s.common, cc);
      }
  | inr e ↦ record {
    common = [];
    left = a ∷ p;
    right = b ∷ r;
    on_left = refl;
    on_right = refl;
    count = rw e;
    from_first = λ d t u f g. absurd (differ d t u e f g);
  }
]
  where
    differ : (d : ℕ) (t u : Bytes) → (a == b) ≡ false → a ∷ p ≡ d ∷ t → b ∷ r ≡ d ∷ u → ⊥
    differ d t u e f g = let same : a ≡ b = cc in ground arith

-- What the code of a round runs to, branch by branch.
module _ (again : ℕ → Bytes → Option (Arena × ℕ)) (arena : Arena) (current : ℕ) (node : Node)
    (stored : get_elem? arena current ≡ some node) (next : ℕ) (rest : Bytes) where
  runs_on :
      (pos c : ℕ)
      → position next node.indices ≡ some pos
      → get_elem? node.children pos ≡ some c
      → insert_rest again arena current (next ∷ rest) ≡ again c (next ∷ rest)
  unfolding insert_rest
  runs_on pos c e f = ground arith

  runs_off :
      position next node.indices ≡ none
      → insert_rest again arena current (next ∷ rest)
        ≡ some (add_child arena current node next rest)
  unfolding insert_rest
  runs_off e = ground arith

whole_lem :
    (arena : Arena) (current : ℕ) (node : Node) (n : ℕ)
    → length node.prefix ≡ n
    → split_if_needed arena current node n ≡ some arena
unfolding split_if_needed
whole_lem arena current node n e = ground arith

split_lem :
    (arena : Arena) (current : ℕ) (node : Node) (n : ℕ)
    → n < length node.prefix
    → split_if_needed arena current node n ≡ split_node arena current n
unfolding split_if_needed
split_lem arena current node n h = ground arith

module _ (fuel : ℕ) (arena : Arena) (current : ℕ) (node : Node) (remaining : Bytes)
    (stored : get_elem? arena current ≡ some node) (n : ℕ)
    (count : common_prefix_len node.prefix remaining ≡ n) where
  pub runs_whole :
      length node.prefix ≡ n
      → insert_loop (suc fuel) arena current remaining
        ≡ insert_rest (insert_loop fuel arena) arena current (drop n remaining)
  unfolding insert_loop
  runs_whole e = ground (arith, whole_lem arena current node n e)

  pub runs_split :
      (arena' : Arena)
      → n < length node.prefix
      → split_node arena current n ≡ some arena'
      → insert_loop (suc fuel) arena current remaining
        ≡ insert_rest (insert_loop fuel arena') arena' current (drop n remaining)
  unfolding insert_loop
  runs_split arena' h e = ground (arith, split_lem arena current node n h)

module _ (Route : ℕ → Spelling → Type 0) where
  -- The rounds that the fuel must still allow.
  abbrev pub Enough : ℕ → Bytes → Bytes → Type 0
  Enough fuel prefix remaining =
      ((prefix ≡ []) × (remaining ≢ []) × (length remaining < fuel))
      ⊎ ((b : ℕ) × (t : Bytes) × (s : Bytes) × (prefix ≡ b ∷ t)
          × (remaining ≡ b ∷ s)
          × (length remaining ≤ fuel))

  abbrev pub IsInsert : ℕ → Type 0
  IsInsert fuel =
      (arena : Arena) (label : ℕ → Spelling)
      → IsTrie Route label arena
      → (current : ℕ) (node : Node) (base : Spelling) (remaining : Bytes)
      → get_elem? arena current ≡ some node
      → label current ≡ base ++ of_bytes node.prefix
      → Enough fuel node.prefix remaining
      → Inserted Route label arena (insert_loop fuel arena current remaining)
          (base ++ of_bytes remaining) IsUnnamed

  module _ (fuel : ℕ) (again : IsInsert fuel) (arena : Arena) (label : ℕ → Spelling)
      (trie : IsTrie Route label arena) (current : ℕ) (node : Node)
      (stored : get_elem? arena current ≡ some node) where
    abbrev pub Rest : Bytes → Type 0
    Rest right =
        Inserted Route label arena (insert_rest (insert_loop fuel arena) arena current right)
          (label current ++ of_bytes right) IsUnnamed

    o : IsSound Route label arena current node
    o = trie.sound current node stored

    go_on :
        (next : ℕ) (rest : Bytes) (pos : ℕ)
        → position next node.indices ≡ some pos
        → suc (length rest) ≤ fuel
        → Rest (next ∷ rest)
    unfolding static_child
    go_on next rest pos e enough =
        let bound : pos < length node.indices = position_bound next node.indices pos e in
        let (c, found) = get_elem_in node.children pos (omega (arith, bound, o.parallel)) in
        let l = o.static_ok next c (rw e found) in
        let r =
          again arena label trie c l.node (label current) (next ∷ rest) l.stored l.labelled
            (inr (next, l.tail, rest, l.starts, refl, enough)) in
        record {
          after = r.after;
          id = r.id;
          labels = r.labels;
          node = r.node;
          runs =
              runs_on (insert_loop fuel arena) arena current node stored next rest pos c e found
              ∙ r.runs;
          trie = r.trie;
          stored = r.stored;
          labelled = r.labelled;
          kept = r.kept;
          ends = r.ends;
        }

    branch_off : (next : ℕ) (rest : Bytes) → position next node.indices ≡ none → Rest (next ∷ rest)
    unfolding add_child with_prefix
    branch_off next rest e = record {
      after = (add_child arena current node next rest).0;
      id = length arena;
      labels = child_label trie current node stored next rest e;
      node = with_prefix (next ∷ rest);
      runs =
          runs_off (insert_loop fuel arena) arena current node stored next rest e
          ∙ ap some (unfold add_child in refl);
      trie = add_child-IsTrie trie current node stored next rest e;
      stored =
          extended_new arena current (with_prefix (next ∷ rest)) _
            (get_elem?_bound arena current stored);
      labelled = relabel_at (length arena) (label current ++ of_bytes (next ∷ rest)) label;
      kept = add_child-Terminal trie current node stored next rest e;
      ends = refl;
    }

    pub rest_lem :
        (right : Bytes) → (right ≡ [] → IsUnnamed node) → length right ≤ fuel → Rest right
    rest_lem [] unnamed enough = record {
      after = arena;
      id = current;
      labels = label;
      node = node;
      runs = unfold insert_rest in refl;
      trie = trie;
      stored = stored;
      labelled = sym (append-nil (label current));
      kept = λ u t. t;
      ends = unnamed refl;
    }
    rest_lem (next ∷ rest) unnamed enough = elim (Option-cases (position next node.indices)) [
      | inl e ↦ branch_off next rest e
      | inr (pos, e) ↦ go_on next rest pos e enough
    ]
