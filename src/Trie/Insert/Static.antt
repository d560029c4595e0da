-- ===== src/Trie/Insert/Static.antt =====
-- The bytes of a static segment (`insert_static`): the loop's fuel is enough, and it ends at a node
-- whose label goes on by those bytes.
use rapina.Prelude.{
  ℕ, zero, suc, ◌+◌, ◌<◌, ◌≤◌, ◌≡◌, refl, sym, ap, ◌∙◌, inl, inr, [], ◌∷◌, ◌++◌, some, length,
  length-append, get_elem?, drop, arith, Bytes, append_assoc, append-nil, Option-cases, drop-append,
}
use rapina.Trie.Node.{Node, Arena}
use rapina.Trie.Spelling.{Spelling, of_bytes, of_bytes-append}
use rapina.Trie.Invariant.{IsTrie}
use rapina.Trie.Insert.{insert_static, insert_loop, insert_rest}
use rapina.Trie.Insert.Arenas.{extended, extended_at, get_elem?_bound, relabel}
use rapina.Trie.Insert.Outcome.{Inserted, IsUnnamed, IsBare}
use rapina.Trie.Insert.Split.{lower, upper}
use rapina.Trie.Insert.Split.Links.{split_node_runs, label_at}
use rapina.Trie.Insert.Split.Sound.{split-IsTrie, Terminal-moved}
use rapina.Trie.Insert.Rounds.{Shared, shared, Enough, IsInsert, rest_lem, runs_whole, runs_split}
use rapina.Trie.Insert.Outcome.{Inserted-trans}

module _ (Route : ℕ → Spelling → Type 0) (fuel : ℕ) (again : IsInsert Route fuel) (arena : Arena)
    (label : ℕ → Spelling) (trie : IsTrie Route label arena) (current : ℕ) (node : Node)
    (base : Spelling) (remaining : Bytes) (stored : get_elem? arena current ≡ some node)
    (labelled : label current ≡ base ++ of_bytes node.prefix) (s : Shared node.prefix remaining)
    (enough : Enough Route (suc fuel) node.prefix remaining) where
  abbrev Round : Type 0
  Round =
      Inserted Route label arena (insert_loop (suc fuel) arena current remaining)
        (base ++ of_bytes remaining) IsUnnamed

  IsUnnamed-of_prefix : (b : ℕ) (t : Bytes) → node.prefix ≡ b ∷ t → IsUnnamed node
  IsUnnamed-of_prefix b t e = elim (Option-cases node.param_name) [
    | inl h ↦ h
    | inr (name, h) ↦ cc (sym e ∙ (trie.sound current node stored).named_empty name h)
  ]

  length_remaining : length remaining ≡ length s.common + length s.right
  length_remaining = rw s.on_right (length-append s.common s.right)

  -- The fuel that is left is enough for what is left.
  fuel_left : length s.right ≤ fuel
  fuel_left = elim enough [
    | inl (_, _, h) ↦ omega (arith, length_remaining)
    | inr (b, t, u, e, f, h) ↦
        let (c, g) = s.from_first b t u e f in
        let longer : 0 < length s.common = rw g (omega arith) in omega (arith, length_remaining)
  ]

  spelled : (base ++ of_bytes s.common) ++ of_bytes s.right ≡ base ++ of_bytes remaining
  spelled =
      rw (s.on_right, of_bytes-append s.common s.right)
        (append_assoc base (of_bytes s.common) (of_bytes s.right))

  cut : drop (length s.common) remaining ≡ s.right
  cut = ap (drop (length s.common)) s.on_right ∙ drop-append s.common s.right

  ends_here : node.prefix ≡ s.common → s.right ≡ [] → IsUnnamed node
  ends_here whole r = elim enough [
    | inl (p, ne, _) ↦
        absurd (ne (s.on_right ∙ ap (λ t. s.common ++ t) r ∙ append-nil s.common ∙ sym whole ∙ p))
    | inr (b, t, _, e, _, _) ↦ IsUnnamed-of_prefix b t e
  ]

  -- The whole prefix is shared.
  no_split : s.left ≡ [] → Round
  no_split e =
      let whole : node.prefix ≡ s.common =
        s.on_left ∙ ap (λ t. s.common ++ t) e ∙ append-nil s.common in
      Inserted-trans (λ u t. t)
        (runs_whole fuel arena current node remaining stored (length s.common) s.count
            (ap length whole)
          ∙ ap (insert_rest (insert_loop fuel arena) arena current) cut)
        (ap (λ l. l ++ of_bytes s.right) (labelled ∙ ap (λ t. base ++ of_bytes t) whole) ∙ spelled)
        (rest_lem Route fuel again arena label trie current node stored s.right (ends_here whole)
          fuel_left)

  module _ (b : ℕ) (c : Bytes) (first : ℕ) (q : Bytes) (g : s.common ≡ b ∷ c)
      (split : node.prefix ≡ (b ∷ c) ++ first ∷ q) where
    abbrev arena₁ : Arena
    arena₁ = extended arena current (lower node first q) (upper node (b ∷ c) first (length arena))

    abbrev label₁ : ℕ → Spelling
    label₁ =
        relabel (length arena) (label current) (relabel current (base ++ of_bytes (b ∷ c)) label)

    runs :
        insert_loop (suc fuel) arena current remaining
        ≡ insert_rest (insert_loop fuel arena₁) arena₁ current s.right
    runs =
        runs_split fuel arena current node remaining stored (length (b ∷ c)) (s.count ∙ ap length g)
          arena₁ (rw split (omega (arith, length-append {0} (b ∷ c) (first ∷ q))))
          (split_node_runs arena current node stored b c first q split)
        ∙ ap (insert_rest (insert_loop fuel arena₁) arena₁ current) (rw g at cut)

    after_split : Round
    after_split =
        Inserted-trans
          (Terminal-moved arena current node stored b c first q split trie base labelled) runs
          (ap (λ l. l ++ of_bytes s.right)
              (label_at arena current node stored b c first q split trie base labelled)
            ∙ (rw g at spelled))
          (rest_lem Route fuel again arena₁ label₁
            (split-IsTrie arena current node stored b c first q split trie base labelled) current
            (upper node (b ∷ c) first (length arena))
            (extended_at arena current _ _ (get_elem?_bound arena current stored)) s.right
            (λ _. refl) fuel_left)

  -- The prefix goes on behind what is shared.
  with_split : (first : ℕ) (q : Bytes) → s.left ≡ first ∷ q → Round
  with_split first q e =
      let split : node.prefix ≡ s.common ++ first ∷ q = s.on_left ∙ ap (λ t. s.common ++ t) e in
      elim enough [
        | inl (p, _, _) ↦
            absurd
              (omega (arith, ap length p, ap length split, length-append {0} s.common (first ∷ q)))
        | inr (b, t, u, f, h, _) ↦
            let (c, g) = s.from_first b t u f h in after_split b c first q g (rw g at split)
      ]

  round : Round
  round = by_left s.left refl
    where
      by_left : (left : Bytes) → s.left ≡ left → Round
      by_left [] e = no_split e
      by_left (first ∷ q) e = with_split first q e

module _ (Route : ℕ → Spelling → Type 0) where
  insert_loop_lem : (fuel : ℕ) → IsInsert Route fuel
  insert_loop_lem zero arena label trie current node base remaining stored labelled enough =
      elim enough [
        | inl (_, _, h) ↦ absurd (omega arith)
        | inr (b, t, u, _, e, h) ↦ absurd (omega (arith, ap length e))
      ]
  insert_loop_lem (suc fuel) arena label trie current node base remaining stored labelled enough =
      round Route fuel (insert_loop_lem fuel) arena label trie current node base remaining stored
        labelled (shared node.prefix remaining) enough

  module _ {label : ℕ → Spelling} {arena : Arena} (trie : IsTrie Route label arena) (start : ℕ)
      (node : Node) (stored : get_elem? arena start ≡ some node) (bare : IsBare node) where
    -- From the root or a parameter node the bytes of a static segment always find their place.
    pub insert_static_lem :
        (b : ℕ) (key : Bytes)
        → Inserted Route label arena
            (insert_static arena start (b ∷ key))
            (label start ++ of_bytes (b ∷ key))
            IsUnnamed
    insert_static_lem b key =
        Inserted-trans {call = insert_loop (suc (length (b ∷ key))) arena start (b ∷ key)}
          {target = label start ++ of_bytes (b ∷ key)} (λ u t. t) (unfold insert_static in refl)
          refl
          (insert_loop_lem (suc (length (b ∷ key))) arena label trie start node (label start)
            (b ∷ key) stored (rw bare (sym (append-nil (label start))))
            (inl (bare, (λ e. cc), omega arith)))
