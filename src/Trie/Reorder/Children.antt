-- ===== src/Trie/Reorder/Children.antt =====
-- The children of a node by their bytes.
use rapina.Prelude.{
  ℕ, true, false, ◌≡◌, ◌≢◌, ◌<◌, refl, sym, ◌∙◌, inl, inr, List, [], ◌∷◌, Option, none, some, All,
  length, get_elem?, map, ◌==◌, if◌then◌else◌, Bool-cases, Option-cases, ==_iff, ==_refl, ◌>>=◌,
  arith, leb,
}
use rapina.Trie.Node.{Node, Arena, position, static_child}
use rapina.Trie.Spelling.{Spelling}
use rapina.Trie.Invariant.{IsTrie}
use rapina.Trie.Insert.Arenas.{get_elem?_bound}
use rapina.Trie.Distinct.{Distinct}
use rapina.Trie.Reorder.{Ranked, insert_ranked, sort_ranked}
use rapina.Trie.Reorder.Kept.{static_deeper}

abbrev pub child_at : ℕ → List ℕ → List ℕ → Option ℕ
child_at b bs cs = position b bs >>= get_elem? cs

child_at_other :
    (a b c : ℕ) (bs cs : List ℕ) → b ≢ a → child_at b (a ∷ bs) (c ∷ cs) ≡ child_at b bs cs
unfolding position
child_at_other a b c bs cs h = elim (Option-cases (position b bs)) [
  | inl e ↦ ground arith
  | inr (i, e) ↦ ground arith
]

child_at_first : (b c : ℕ) (bs cs : List ℕ) → child_at b (b ∷ bs) (c ∷ cs) ≡ some c
unfolding position
child_at_first b c bs cs = rw (==_refl b) refl

absent : (b : ℕ) (bs : List ℕ) → All (λ c. c ≢ b) bs → position b bs ≡ none
unfolding position
absent b [] h = refl
absent b (c ∷ bs) (h, hs) = ground (arith, absent b bs hs)

-- What holds of each child that a byte leads to holds of all children.
pub All-children :
    (P : ℕ → Type 0) (bs cs : List ℕ)
    → Distinct bs
    → length bs ≡ length cs
    → ((b c : ℕ) → child_at b bs cs ≡ some c → P c)
    → All P cs
All-children P [] [] d l h = tt
All-children P [] (c ∷ cs) d l h = absurd (omega arith)
All-children P (b ∷ bs) [] d l h = absurd (omega arith)
All-children P (b ∷ bs) (c ∷ cs) (d, ds) l h = (
  h b c (child_at_first b c bs cs),
  All-children P bs cs ds (omega arith) (λ a k e. h a k (below a k e)),
)
  where
    below : (a k : ℕ) → child_at a bs cs ≡ some k → child_at a (b ∷ bs) (c ∷ cs) ≡ some k
    below a k e = elim (Bool-cases (a == b)) [
      | inl t ↦ let same : a ≡ b = (==_iff a b).0 t in cc (rw (same, absent b bs d) at e)
      | inr t ↦ child_at_other b a c bs cs (ground arith) ∙ e
    ]

abbrev pub bytes_of : List Ranked → List ℕ
bytes_of rs = map (λ r. r.byte) rs

abbrev pub children_of : List Ranked → List ℕ
children_of rs = map (λ r. r.child) rs

abbrev found : ℕ → List Ranked → Option ℕ
found b [] = none
found b (r ∷ rs) = if r.byte == b then some r.child else found b rs

child_at-found : (b : ℕ) (rs : List Ranked) → child_at b (bytes_of rs) (children_of rs) ≡ found b rs
unfolding position
child_at-found b [] = refl
child_at-found b (r ∷ rs) = elim (Bool-cases (r.byte == b)) [
  | inl e ↦ rw e refl
  | inr e ↦
      let skip : found b rs ≡ (if r.byte == b then some r.child else found b rs) = rw e refl in
      child_at_other r.byte b r.child (bytes_of rs) (children_of rs) (ground arith)
      ∙ child_at-found b rs
      ∙ skip
]

found-insert_ranked :
    (b : ℕ) (r : Ranked) (rs : List Ranked)
    → All (λ a. a ≢ r.byte) (bytes_of rs)
    → found b (insert_ranked r rs) ≡ found b (r ∷ rs)
unfolding insert_ranked
found-insert_ranked b r [] h = refl
found-insert_ranked b r (s ∷ rs) (h, hs) = elim (Bool-cases (leb s.rank r.rank)) [
  | inl e ↦ rw e refl
  | inr e ↦ rw e (ground (arith, found-insert_ranked b r rs hs))
]

All-insert_ranked :
    (P : ℕ → Type 0) (r : Ranked) (rs : List Ranked)
    → P r.byte
    → All P (bytes_of rs)
    → All P (bytes_of (insert_ranked r rs))
unfolding insert_ranked
All-insert_ranked P r [] p h = (p, tt)
All-insert_ranked P r (s ∷ rs) p (h, hs) =
    elim (leb s.rank r.rank)
      as (λ t. All P (bytes_of (if t then r ∷ s ∷ rs else s ∷ insert_ranked r rs))) [
        | true ↦ (p, (h, hs))
        | false ↦ (h, All-insert_ranked P r rs p hs)
      ]

Distinct-insert_ranked :
    (r : Ranked) (rs : List Ranked)
    → All (λ a. a ≢ r.byte) (bytes_of rs)
    → Distinct (bytes_of rs)
    → Distinct (bytes_of (insert_ranked r rs))
unfolding insert_ranked
Distinct-insert_ranked r [] h d = (tt, tt)
Distinct-insert_ranked r (s ∷ rs) (h, hs) (d, ds) =
    elim (leb s.rank r.rank)
      as (λ t. Distinct (bytes_of (if t then r ∷ s ∷ rs else s ∷ insert_ranked r rs))) [
        | true ↦ ((h, hs), (d, ds))
        | false ↦ (
          All-insert_ranked (λ a. a ≢ s.byte) r rs (λ e. h (sym e)) d,
          Distinct-insert_ranked r rs hs ds,
        )
      ]

-- The stable sort keeps the bytes distinct, and leads each byte to the same child.
pub sort_ranked-Distinct :
    (rs : List Ranked)
    → Distinct (bytes_of rs)
    → Distinct (bytes_of (sort_ranked rs))
      × ((P : ℕ → Type 0) → All P (bytes_of rs) → All P (bytes_of (sort_ranked rs)))
unfolding sort_ranked
sort_ranked-Distinct [] d = (tt, λ P h. h)
sort_ranked-Distinct (r ∷ rs) (d, ds) =
    let (e, all) = sort_ranked-Distinct rs ds in
    (
      Distinct-insert_ranked r (sort_ranked rs) (all (λ a. a ≢ r.byte) d) e,
      λ P h. All-insert_ranked P r (sort_ranked rs) h.0 (all P h.1),
    )

found-sort_ranked :
    (b : ℕ) (rs : List Ranked) → Distinct (bytes_of rs) → found b (sort_ranked rs) ≡ found b rs
unfolding sort_ranked
found-sort_ranked b [] d = refl
found-sort_ranked b (r ∷ rs) (d, ds) =
    found-insert_ranked b r (sort_ranked rs) ((sort_ranked-Distinct rs ds).1 (λ a. a ≢ r.byte) d)
    ∙ ground (arith, found-sort_ranked b rs ds)

pub child_at-sort_ranked :
    (b : ℕ) (rs : List Ranked)
    → Distinct (bytes_of rs)
    → child_at b (bytes_of (sort_ranked rs)) (children_of (sort_ranked rs))
      ≡ child_at b (bytes_of rs) (children_of rs)
child_at-sort_ranked b rs d =
    child_at-found b (sort_ranked rs) ∙ found-sort_ranked b rs d ∙ sym (child_at-found b rs)

-- The children of a node of a trie are nodes below it.
pub children_deeper :
    {Route : ℕ → Spelling → Type 0} {label : ℕ → Spelling} {arena : Arena}
    (trie : IsTrie Route label arena) (id : ℕ) (n : Node)
    → get_elem? arena id ≡ some n
    → Distinct n.indices
    → All (λ c. (c < length arena) × (length (label id) < length (label c))) n.children
unfolding static_child
children_deeper {label} {arena} trie id n stored d =
    let o = trie.sound id n stored in
    All-children (λ c. (c < length arena) × (length (label id) < length (label c))) n.indices
      n.children d o.parallel
      (λ b c h. let l = o.static_ok b c h in (get_elem?_bound arena c l.stored, static_deeper l))
