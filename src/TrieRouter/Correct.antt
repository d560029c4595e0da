-- ===== src/TrieRouter/Correct.antt =====
-- The tries that `build` makes, against the routes.
use rapina.Prelude.{
  ℕ, zero, suc, true, ◌≡◌, refl, sym, ap, ◌∙◌, ◌⊎◌, inl, inr, List, [], ◌∷◌, Option, none, some,
  Bytes, IsAscii, length, get_elem?, >>=-eq-some, Option-cases,
}
use rapina.PathParams.{PathParams}
use rapina.Trie.Node.{Method, Arena, method_index}
use rapina.Trie.Lookup
use rapina.Trie.Lookup.{Found}
use rapina.Trie.Reorder.Kept.{get_elem?-some}
use rapina.Trie.Correct.{PatternFits, sound_of, complete_of, total_of}
use rapina.RoutePattern.{is_dynamic}
use rapina.TrieRouter.{TrieRouter, add_routes, build, finish, lookup, no_tries}
use rapina.TrieRouter.Slots.{of_slot, slot_of_routes, method_index-bound, add_routes-length}
use rapina.TrieRouter.{add_route}
use rapina.TrieRouter.Members.{
  IsDynamicRoute, NoRepeats, of_slot-AllDistinct, slot_route, route_slot,
}
use rapina.TrieRouter.Finish.{Finished, no_trie, trie_of, finish_lem}

-- A right answer to a lookup: a dynamic route of the method whose pattern fits the path, with its
-- captures, or no route, and no parameter, where none fits.
pub data Answers (routes : List (Method × Bytes)) (method path : Bytes) : Found → Type 0 where
  hit :
      {pattern : Bytes} {v : ℕ} {caps : PathParams}
      → IsDynamicRoute routes method pattern v
      → PatternFits pattern path caps
      → Answers routes method path (some v, caps)
  miss :
      ((pattern : Bytes) (v : ℕ) (caps : PathParams)
        → IsDynamicRoute routes method pattern v
        → ¬ PatternFits pattern path caps)
      → Answers routes method path (none, [])

-- A lookup panics, on a path that is not all ASCII, or it returns a right answer.
abbrev pub Ends : List (Method × Bytes) → Method → Bytes → Option Found → Type 0
Ends routes method path call =
    ((call ≡ none) × ¬ IsAscii path)
    ⊎ ((found : Found) × (call ≡ some found) × Answers routes method path found)

added-index :
    (idx : ℕ) (method p : Bytes) (methods after : TrieRouter)
    → is_dynamic p ≡ true
    → add_route idx method p methods ≡ some after
    → (mi : ℕ) × (method_index method ≡ some mi)
unfolding add_route
added-index idx method p methods after dyn h =
    let (mi, index, _) = >>=-eq-some (method_index method) _ (rw dyn at h) in (mi, index)

-- A dynamic route that was added has a standard method.
indexed :
    (idx k : ℕ) (routes : List (Method × Bytes)) (methods after : TrieRouter) (method p : Bytes)
    → add_routes idx routes methods ≡ some after
    → IsDynamicRoute routes method p k
    → (mi : ℕ) × (method_index method ≡ some mi)
unfolding add_routes
indexed idx k [] methods after method p h r = cc r.listed
indexed idx k ((m', p') ∷ routes) methods after method p h r =
    let (methods', first, others) =
      >>=-eq-some (add_route idx m' p' methods) (λ t. add_routes (suc idx) routes t) h in
    pick k r methods' first (λ k' r'. indexed (suc idx) k' routes methods' after method p others r')
  where
    pick :
        (k : ℕ)
        → IsDynamicRoute ((m', p') ∷ routes) method p k
        → (methods' : TrieRouter) → add_route idx m' p' methods ≡ some methods'
        → ((k' : ℕ)
            → IsDynamicRoute routes method p k'
            → (mi : ℕ) × (method_index method ≡ some mi))
        → (mi : ℕ) × (method_index method ≡ some mi)
    pick zero r methods' first later =
        let same_m : m' ≡ method = cc r.listed in
        let same_p : p' ≡ p = cc r.listed in
        added-index idx method p methods methods' r.dynamic (rw (same_m, same_p) at first)
    pick (suc k) r methods' first later =
        later k (record { listed = r.listed; dynamic = r.dynamic })

module _ (routes : List (Method × Bytes)) (tries : TrieRouter) where
  built_slots :
      NoRepeats routes
      → build routes ≡ some tries
      → (methods : TrieRouter) × (add_routes 0 routes no_tries ≡ some methods)
        × (length tries ≡ 9)
        × ((i : ℕ) (slot : Option Arena)
            → get_elem? tries i ≡ some slot
            → Finished (of_slot i 0 routes) slot)
  unfolding build
  built_slots fresh runs =
      let (methods, adds, finishes) = >>=-eq-some (add_routes 0 routes no_tries) finish runs in
      let f =
        finish_lem (λ i. of_slot i 0 routes) methods (λ i. of_slot-AllDistinct i 0 routes fresh)
          (λ i slot stored. slot_of_routes i routes methods slot adds stored) in
      let same : f.after ≡ tries = cc (sym f.runs ∙ finishes) in
      (
        methods,
        adds,
        ap length (sym same) ∙ (f.size ∙ add_routes-length 0 routes no_tries methods adds),
        rw same at f.each,
      )

  slot_answer :
      (method path : Bytes) (mi : ℕ) (slot : Option Arena)
      → method_index method ≡ some mi
      → Finished (of_slot mi 0 routes) slot
      → Ends routes method path
          (elim slot [ none ↦ some (none, []) | some trie ↦ Lookup.lookup trie path [] ])
  slot_answer method path mi none index (no_trie e) = inr (
    (none, []),
    refl,
    miss (λ pattern v caps r fits.
        elim (rw e at (route_slot method mi index v pattern routes r)) [ ]),
  )
  slot_answer method path mi (some t) index (trie_of b) =
      elim (total_of (of_slot mi 0 routes) t path b) [
        | inl panics ↦ inl panics
        | inr (inl e) ↦ inr (
          (none, []),
          e,
          miss (λ pattern v caps r fits.
              complete_of (of_slot mi 0 routes) t pattern path v caps b
                (route_slot method mi index v pattern routes r) fits e),
        )
        | inr (inr (v, caps, e)) ↦
            let (pattern, listed, fits) = sound_of (of_slot mi 0 routes) t path v caps b e in
            inr ((some v, caps), e, hit (slot_route method mi index v pattern routes listed) fits)
      ]

  -- The lookup in the tries that `build` makes of a list of routes, no pattern of which names a
  -- parameter twice: for any method and path it panics, and then the path is not all ASCII, or its
  -- answer is right: a dynamic route of the list with this method whose pattern fits the path, under
  -- its index and with the captures, or no route and no parameter where no such route fits the path.
  pub lookup_lem :
      (method path : Bytes)
      → NoRepeats routes
      → build routes ≡ some tries
      → Ends routes method path (lookup tries method path [])
  unfolding lookup
  lookup_lem method path fresh runs =
      let (methods, adds, nine, slots) = built_slots fresh runs in
      elim (Option-cases (method_index method)) [
        | inl e ↦ inr (
          (none, []),
          rw (e, lookup) refl,
          miss (λ pattern v caps r fits.
              let (mi, index) = indexed 0 v routes no_tries methods method pattern adds r in
              cc (sym e ∙ index)),
        )
        | inr (mi, e) ↦
            let (slot, stored) =
              get_elem?-some tries mi (rw nine (method_index-bound method mi e)) in
            elim (slot_answer method path mi slot e (slots mi slot stored)) [
              | inl (panics, wide) ↦ inl (rw (e, stored, lookup) panics, wide)
              | inr (found, answered, right) ↦ inr (found, rw (e, stored, lookup) answered, right)
            ]
      ]

-- Once every route was added, and no pattern names a parameter twice, `build` does not panic: the priorities of every trie are counted
-- within the bound on its depth, and its children are reordered.
pub build-total :
    (routes : List (Method × Bytes)) (methods : TrieRouter)
    → NoRepeats routes
    → add_routes 0 routes no_tries ≡ some methods
    → (tries : TrieRouter) × (build routes ≡ some tries)
unfolding build
build-total routes methods fresh adds =
    let f =
      finish_lem (λ i. of_slot i 0 routes) methods (λ i. of_slot-AllDistinct i 0 routes fresh)
        (λ i slot stored. slot_of_routes i routes methods slot adds stored) in
    (f.after, rw (adds, build) f.runs)
