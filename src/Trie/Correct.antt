-- ===== src/Trie/Correct.antt =====
-- The trie of a list of routes: the lookup against the patterns that were inserted.
pub mod Finished
use mathlib.Core.List.{Memᴰ}
use rapina.Prelude.{
  ℕ, ◌≡◌, refl, sym, ap, ◌∙◌, ◌⊎◌, inl, inr, List, [], ◌∷◌, ◌++◌, Option, some, none, Bytes,
  IsAscii, ◌>>=◌, >>=-eq-some, get_elem?, arith, zero, suc,
}
use rapina.PathParams.{PathParams}
use rapina.Trie.Node.{Node, Arena, new_trie, new_node, static_child, position}
use rapina.Trie.Pattern.{Segment, split_pattern}
use rapina.Trie.Pattern.Laws.{split_pattern_total}
use rapina.Trie.Spelling.{Spelling, spelling, Fits, of_bytes}
use rapina.Trie.Walk.{Walk-Fits}
use rapina.Trie.Climb.{Terminal-Walk}
use rapina.Trie.Invariant.{IsSound, IsTrie, Terminal}
use rapina.Trie.Insert.{insert}
use rapina.Trie.Insert.Whole.{FreshNames, Grown, insert_lem}
use rapina.Trie.Lookup.{Found, lookup}
use rapina.Trie.Lookup.Visits.{lookup_lem}
use rapina.Trie.Lookup.Outcomes.{Outcome, Runs}
use rapina.Trie.Walk.{Walk}

-- The patterns of one method, each with its route's index, inserted in order.
unfoldable pub inserts : List (Bytes × ℕ) → Arena → Option Arena
inserts [] arena = some arena
inserts ((pattern, idx) ∷ routes) arena = do
  arena' ← insert arena pattern idx
  inserts routes arena'

-- A path fits a pattern, with captures.
pub record PatternFits (pattern path : Bytes) (caps : PathParams) : Type 0 where
  pub segments : List Segment
  pub parsed : split_pattern pattern ≡ some segments
  pub fits : Fits (spelling segments) path caps

-- No parameter name occurs twice in a pattern.
abbrev pub DistinctNames : Bytes → Type 0
DistinctNames pattern =
    (segs : List Segment) → split_pattern pattern ≡ some segs → FreshNames [] segs

abbrev pub AllDistinct : List (Bytes × ℕ) → Type 0
AllDistinct [] = Unit
AllDistinct ((pattern, _) ∷ routes) = DistinctNames pattern × AllDistinct routes

-- A route of the list has the index and the spelling.
pub record IsRoute (routes : List (Bytes × ℕ)) (v : ℕ) (s : Spelling) : Type 0 where
  pub pattern : Bytes
  pub segments : List Segment
  pub listed : Memᴰ (pattern, v) routes
  pub parsed : split_pattern pattern ≡ some segments
  pub spells : spelling segments ≡ s

new_trie-IsTrie : (Route : ℕ → Spelling → Type 0) → IsTrie Route (λ _. []) new_trie
unfolding new_trie static_child position
new_trie-IsTrie Route = record {
  root = new_node;
  root_stored = refl;
  root_empty = refl;
  root_unnamed = refl;
  root_label = refl;
  sound = only;
}
  where
    only :
        (id : ℕ) (n : Node)
        → get_elem? (new_node ∷ []) id ≡ some n
        → IsSound Route (λ _. []) (new_node ∷ []) id n
    only zero n h =
        let e : new_node ≡ n = cc in
        rw (← e) (record {
          parallel = refl;
          static_ok = λ b c g. cc;
          param_ok = λ p g. cc;
          value_ok = λ v g. cc;
          named_empty = λ name g. refl;
          parent = inl refl;
        })
    only (suc id) n h = cc

module _ (routes : List (Bytes × ℕ)) where
  -- The trie so far, with a terminal node for each route that was inserted.
  pub record Built (done : List (Bytes × ℕ)) (arena : Arena) : Type 0 where
    pub labels : ℕ → Spelling
    pub trie : IsTrie (IsRoute routes) labels arena
    pub reached :
        (pattern : Bytes) (idx : ℕ) (segs : List Segment)
        → Memᴰ (pattern, idx) done
        → split_pattern pattern ≡ some segs
        → Terminal labels arena (spelling segs)

  build_step :
      (done : List (Bytes × ℕ)) (arena after : Arena) (pattern : Bytes) (idx : ℕ)
      → Built done arena
      → Memᴰ (pattern, idx) routes
      → DistinctNames pattern
      → insert arena pattern idx ≡ some after
      → Built ((pattern, idx) ∷ done) after
  build_step done arena after pattern idx b listed fresh runs =
      let (segs, parsed, _, alt) = split_pattern_total pattern in
      let route : IsRoute routes idx (spelling segs) = record {
        pattern = pattern;
        segments = segs;
        listed = listed;
        parsed = parsed;
        spells = refl;
      } in
      let g =
        insert_lem (IsRoute routes) b.trie pattern segs idx parsed alt (fresh segs parsed) route
          runs in
      record { labels = g.labels; trie = g.trie; reached = reached_step segs parsed g }
    where
      reached_step :
          (segs : List Segment)
          → split_pattern pattern ≡ some segs
          → (g : Grown (IsRoute routes) b.labels arena after (spelling segs))
          → (pattern' : Bytes) (idx' : ℕ) (segs' : List Segment)
          → Memᴰ (pattern', idx') ((pattern, idx) ∷ done)
          → split_pattern pattern' ≡ some segs'
          → Terminal g.labels after (spelling segs')
      reached_step segs parsed g pattern' idx' segs' (Memᴰ.head e) parsed' =
          let same_pattern : pattern' ≡ pattern = ap (λ r. r.0) e in
          let same : segs ≡ segs' = cc in rw same at g.ends
      reached_step segs parsed g pattern' idx' segs' (Memᴰ.tail m) parsed' =
          g.kept (spelling segs') (b.reached pattern' idx' segs' m parsed')

  build_all :
      (todo done : List (Bytes × ℕ)) (arena after : Arena)
      → Built done arena
      → ((r : Bytes × ℕ) → Memᴰ r todo → Memᴰ r routes)
      → AllDistinct todo
      → inserts todo arena ≡ some after
      → (done' : List (Bytes × ℕ)) × Built done' after
        × ((r : Bytes × ℕ) → Memᴰ r todo ⊎ Memᴰ r done → Memᴰ r done')
  unfolding inserts
  build_all [] done arena after b listed fresh runs =
      let same : arena ≡ after = cc in (done, rw (← same) b, only_done)
    where
      only_done : (r : Bytes × ℕ) → Memᴰ r [] ⊎ Memᴰ r done → Memᴰ r done
      only_done r (inl m) = elim m [ ]
      only_done r (inr k) = k
  build_all ((pattern, idx) ∷ todo) done arena after b listed fresh runs =
      let (arena', first, others) =
        >>=-eq-some (insert arena pattern idx) (λ a. inserts todo a) runs in
      let b' =
        build_step done arena arena' pattern idx b (listed (pattern, idx) (Memᴰ.head refl)) fresh.0
          first in
      let (done', b'', all) =
        build_all todo ((pattern, idx) ∷ done) arena' after b' (λ r m. listed r (Memᴰ.tail m))
          fresh.1 others in
      (done', b'', λ r m. all r (moved r m))
    where
      moved :
          (r : Bytes × ℕ)
          → Memᴰ r ((pattern, idx) ∷ todo) ⊎ Memᴰ r done
          → Memᴰ r todo ⊎ Memᴰ r ((pattern, idx) ∷ done)
      moved r (inl (Memᴰ.head e)) = inr (Memᴰ.head e)
      moved r (inl (Memᴰ.tail m)) = inl m
      moved r (inr k) = inr (Memᴰ.tail k)

  pub built :
      (arena : Arena)
      → AllDistinct routes
      → inserts routes new_trie ≡ some arena
      → Built routes arena
  built arena fresh runs =
      let (done, b, all) =
        build_all routes [] new_trie arena
          (record {
            labels = λ _. [];
            trie = new_trie-IsTrie (IsRoute routes);
            reached = λ pattern idx segs m. elim m [ ];
          })
          (λ r m. m) fresh runs in
      record {
        labels = b.labels;
        trie = b.trie;
        reached = λ pattern idx segs m. b.reached pattern idx segs (all (pattern, idx) (inl m));
      }

  -- A call that returns keeps what is promised of it.
  Outcome-of :
      {Reaches : ℕ → PathParams → Type 0} {call : Option Found} (path : Bytes) (found : Found)
      → Runs path call Reaches []
      → call ≡ some found
      → Outcome Reaches [] found
  Outcome-of path found (inl (panics, _)) e = cc (sym panics ∙ e)
  Outcome-of path found (inr r) e =
      let same : r.found ≡ found = cc (sym r.runs ∙ e) in rw same at r.outcome

  pub sound_of :
      (arena : Arena) (path : Bytes) (v : ℕ) (caps : PathParams)
      → Built routes arena
      → lookup arena path [] ≡ some (some v, caps)
      → (pattern : Bytes) × Memᴰ (pattern, v) routes × PatternFits pattern path caps
  sound_of arena path v caps b found =
      let (caps', reached, all) = Outcome-of path (some v, caps) (lookup_lem b.trie path) found in
      let walk : Walk arena 0 path v caps = rw all reached in
      let (s, route, fits) = Walk-Fits b.trie [] walk (λ n e. start n e) in
      (
        route.pattern,
        route.listed,
        record { segments = route.segments; parsed = route.parsed; fits = rw route.spells fits },
      )
    where
      start : (n : Node) → get_elem? arena 0 ≡ some n → b.labels 0 ≡ [] ++ of_bytes n.prefix
      start n e =
          let empty : n.prefix ≡ [] = ground (arith, b.trie.root_stored, b.trie.root_empty) in
          rw (empty) b.trie.root_label

  -- Where a pattern fits, a lookup that returns has found a route.
  pub complete_of :
      (arena : Arena) (pattern path : Bytes) (idx : ℕ) (caps : PathParams)
      → Built routes arena
      → Memᴰ (pattern, idx) routes
      → PatternFits pattern path caps
      → ¬ (lookup arena path [] ≡ some (none, []))
  complete_of arena pattern path idx caps b listed p missed =
      let t = b.reached pattern idx p.segments listed p.parsed in
      let (_, no_walk) = Outcome-of path (none, []) (lookup_lem b.trie path) missed in
      no_walk t.index caps (Terminal-Walk b.trie t p.fits)

  pub total_of :
      (arena : Arena) (path : Bytes)
      → Built routes arena
      → ((lookup arena path [] ≡ none) × ¬ IsAscii path)
        ⊎ ((lookup arena path [] ≡ some (none, []))
            ⊎ ((v : ℕ) × (caps : PathParams) × (lookup arena path [] ≡ some (some v, caps))))
  total_of arena path b = elim (lookup_lem b.trie path) [
    | inl panics ↦ inl panics
    | inr r ↦ inr (answer r.found r.runs r.outcome)
  ]
    where
      answer :
          (found : Found)
          → lookup arena path [] ≡ some found
          → Outcome (Walk arena 0 path) [] found
          → (lookup arena path [] ≡ some (none, []))
            ⊎ ((v : ℕ) × (caps : PathParams) × (lookup arena path [] ≡ some (some v, caps)))
      answer (some v', caps') runs' o = inr (v', caps', runs')
      answer (none, caps') runs' o = inl (rw (o.0) at runs')

  -- The lookup in the trie of a list of routes, no pattern of which names a parameter twice: when
  -- it gives a route and its captures, a pattern of the list with that route's index fits the path,
  -- with those captures.
  pub lookup_sound :
      (arena : Arena) (path : Bytes) (v : ℕ) (caps : PathParams)
      → AllDistinct routes
      → inserts routes new_trie ≡ some arena
      → lookup arena path [] ≡ some (some v, caps)
      → (pattern : Bytes) × Memᴰ (pattern, v) routes × PatternFits pattern path caps
  lookup_sound arena path v caps fresh runs = sound_of arena path v caps (built arena fresh runs)

  -- In the same trie the lookup gives a route for every ASCII path that a pattern of the list fits.
  pub lookup_complete :
      (arena : Arena) (pattern path : Bytes) (idx : ℕ) (caps : PathParams)
      → IsAscii path
      → AllDistinct routes
      → inserts routes new_trie ≡ some arena
      → Memᴰ (pattern, idx) routes
      → PatternFits pattern path caps
      → (v : ℕ) × (caps' : PathParams) × (lookup arena path [] ≡ some (some v, caps'))
  lookup_complete arena pattern path idx caps ascii fresh runs listed p =
      let b = built arena fresh runs in
      elim (total_of arena path b) [
        | inl (_, wide) ↦ absurd (wide ascii)
        | inr (inl missed) ↦ absurd (complete_of arena pattern path idx caps b listed p missed)
        | inr (inr hit) ↦ hit
      ]

  -- In the same trie the lookup of any path gives a route, or no route and then leaves no parameter
  -- behind, or it gives nothing, and then the path is not all ASCII: on an ASCII path it does not
  -- panic, and its fuel is enough.
  pub lookup-total :
      (arena : Arena) (path : Bytes)
      → AllDistinct routes
      → inserts routes new_trie ≡ some arena
      → ((lookup arena path [] ≡ none) × ¬ IsAscii path)
        ⊎ ((lookup arena path [] ≡ some (none, []))
            ⊎ ((v : ℕ) × (caps : PathParams) × (lookup arena path [] ≡ some (some v, caps))))
  lookup-total arena path fresh runs = total_of arena path (built arena fresh runs)
