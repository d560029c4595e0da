-- ===== src/Trie/Lookup/Visits.antt =====
-- Unless it panics on a path that is not all ASCII, the lookup finds a route exactly when some walk
-- reaches one, returns the captures of that walk
-- behind the parameters it was given, and after a miss returns those as they were.
use rapina.Prelude.{
  ℕ, zero, suc, ◌+◌, ◌*◌, ◌≡◌, refl, sym, ◌∙◌, ◌≤◌, ◌⊎◌, inl, inr, [], ◌∷◌, ◌++◌, Option, none,
  some, Bytes, length, get_elem?, strip_prefix, strip_prefix_sound, strip_prefix_append, append-nil,
  is_char_boundary, IsAscii, IsAscii-append, not_boundary, Bool-cases, arith, Option-cases,
  length-append,
}
use rapina.PathParams.{PathParams, keys}
use rapina.Trie.Node.{Node, Arena}
use rapina.Trie.Lookup.{
  Found, Visit, try_param, lookup_rest, lookup_node, lookup_recursive, lookup, lookup_fuel,
  or_param,
}
use rapina.Trie.Spelling.{Spelling, names}
use rapina.Trie.Lookup.Outcomes.{Outcome, Runs, Enough, IsLookup, Down, Across, Outcome-map}
use rapina.Trie.Lookup.Branches.{try_static_lem, try_param_lem}
use rapina.Trie.Invariant.{IsSound, IsTrie}
use rapina.Trie.Walk.{Walk, enter, After, here, down, across}

module _ {Route : ℕ → Spelling → Type 0} {label : ℕ → Spelling} {arena : Arena}
    (trie : IsTrie Route label arena) where
  After-cases :
      {n : Node} {b : ℕ} {path : Bytes} {v : ℕ} {caps : PathParams}
      → After arena n (b ∷ path) v caps
      → Down arena n b path v caps ⊎ Across arena n b path v caps
  After-cases (down {c} link w) = inl (c, link, w)
  After-cases (across {m} {p} {name} {caps} link stored named w) =
      inr (p, m, name, caps, link, stored, named, w, refl)

  After-Down :
      {n : Node} {b : ℕ} {path : Bytes} {v : ℕ} {caps : PathParams}
      → Down arena n b path v caps
      → After arena n (b ∷ path) v caps
  After-Down (c, link, w) = down link w

  After-Across :
      {n : Node} {b : ℕ} {path : Bytes} {v : ℕ} {caps : PathParams}
      → Across arena n b path v caps
      → After arena n (b ∷ path) v caps
  After-Across (p, m, name, caps', link, stored, named, w, e) = rw e (across link stored named w)

  After-nil :
      {n : Node} {v : ℕ} {caps : PathParams}
      → After arena n [] v caps
      → (n.value ≡ some v) × (caps ≡ [])
  After-nil (here e) = (e, refl)

  -- A hit by the static child, or else what the parameter child gives.
  or_param_lem :
      (n : Node) (b : ℕ) (path : Bytes) (params : PathParams) (try : PathParams → Option Found)
      (found : Found)
      → Outcome (Down arena n b path) params found
      → Runs (b ∷ path) (try params) (Across arena n b path) params
      → Runs (b ∷ path) (or_param try found) (After arena n (b ∷ path)) params
  or_param_lem n b path params try (some v, params') (caps, w, e) t =
      inr (record { found = (some v, params'); runs = refl; outcome = (caps, After-Down w, e) })
  or_param_lem n b path params try (none, params') (e, no_walk) (inl (panics, wide)) =
      inl (rw e panics, wide)
  or_param_lem n b path params try (none, params') (e, no_walk) (inr t) = inr (record {
    found = t.found;
    runs = rw e t.runs;
    outcome =
        Outcome-map (Across arena n b path) (After arena n (b ∷ path)) params t.found
          (λ v caps a. After-Across a)
          (λ v caps a. elim (After-cases a) [ inl d ↦ absurd (no_walk v caps d) | inr x ↦ x ])
          t.outcome;
  })

  value_lem :
      (n : Node) (params : PathParams) (value : Option ℕ)
      → n.value ≡ value
      → Outcome (After arena n []) params (value, params)
  value_lem n params none e = (refl, λ v caps a. cc (sym e ∙ (After-nil a).0))
  value_lem n params (some v) e = ([], here e, sym (append-nil params))

  append_cancel : (p a b : Bytes) → p ++ a ≡ p ++ b → a ≡ b
  append_cancel [] a b e = e
  append_cancel (x ∷ p) a b e = append_cancel p a b (cc)

  Walk-After :
      {id : ℕ} {n : Node} {v : ℕ} {caps : PathParams} (path rest : Bytes)
      → get_elem? arena id ≡ some n
      → path ≡ n.prefix ++ rest
      → Walk arena id path v caps
      → After arena n rest v caps
  Walk-After {n} path rest stored split (enter {n = m} {rest = rest'} stored' split' after) =
      let same : m ≡ n = ground arith in
      let e : rest' ≡ rest = append_cancel n.prefix rest' rest (rw same at (sym split') ∙ split) in
      rw (← e, ← same) after

  no_prefix :
      {id : ℕ} {n : Node} {v : ℕ} {caps : PathParams} (path : Bytes)
      → get_elem? arena id ≡ some n
      → strip_prefix n.prefix path ≡ none
      → Walk arena id path v caps
      → ⊥
  no_prefix {n} path stored e (enter {n = m} {rest} stored' split after) =
      let same : m ≡ n = ground arith in
      let hit : strip_prefix n.prefix path ≡ some rest =
        rw (split, same) (strip_prefix_append n.prefix rest) in
      cc

  module _ (fuel : ℕ) (visit : Visit) (rec : IsLookup label arena fuel visit) (id : ℕ) (n : Node)
      (s : IsSound Route label arena id n) (params : PathParams)
      (kept : keys params ≡ names (label id)) where
    lookup_rest_lem :
        (rest : Bytes)
        → 2 * length rest + 2 ≤ suc fuel
        → (n.param_child ≡ none) ⊎ (2 * length rest + 3 ≤ suc fuel)
        → Runs rest (lookup_rest visit arena n rest params) (After arena n rest) params
    lookup_rest_lem [] h k = inr (record {
      found = (n.value, params);
      runs = unfold lookup_rest in refl;
      outcome = value_lem n params n.value refl;
    })
    lookup_rest_lem (b ∷ path) h k =
        let st = try_static_lem fuel visit rec id n s b path params kept (omega arith) in
        let pa =
          try_param_lem fuel visit rec id n s b path params kept
            (elim k [ inl e ↦ inl e | inr e ↦ inr (omega arith) ]) in
        elim st [
          | inl (panics, wide) ↦ inl (unfold lookup_rest in rw panics, wide)
          | inr st ↦
              elim (or_param_lem n b path params (try_param visit arena n (b ∷ path)) st.found
                st.outcome pa) [
                  | inl (panics, wide) ↦ inl (unfold lookup_rest in rw st.runs panics, wide)
                  | inr r ↦ inr (record {
                    found = r.found;
                    runs = unfold lookup_rest in rw st.runs r.runs;
                    outcome = r.outcome;
                  })
                ]
        ]

    lookup_node_lem :
        (path : Bytes)
        → get_elem? arena id ≡ some n
        → Enough (suc fuel) n path
        → Runs path (lookup_node visit arena n path params) (Walk arena id path) params
    lookup_node_lem path stored enough = elim (Option-cases (strip_prefix n.prefix path)) [
      | inl e ↦ inr (record {
        found = (none, params);
        runs = unfold lookup_node in rw (e, lookup_node);
        outcome = (refl, λ v caps w. no_prefix path stored e w);
      })
      | inr (rest, e) ↦
          let split : path ≡ n.prefix ++ rest = strip_prefix_sound n.prefix path rest e in
          let long : length path ≡ length n.prefix + length rest =
            rw split (length-append n.prefix rest) in
          let r =
            lookup_rest_lem rest (omega arith)
              (elim enough.2 [ inl e ↦ inl e | inr k ↦ inr (omega arith) ]) in
          let narrow : IsAscii path → IsAscii rest =
            λ a. IsAscii-append n.prefix rest (rw split at a) in
          elim (Bool-cases (is_char_boundary n.prefix rest)) [
            | inr cut ↦ inl (
              unfold lookup_node in rw (e, cut, lookup_node),
              λ a. not_boundary n.prefix rest cut (narrow a),
            )
            | inl cut ↦ elim r [
              | inl (panics, wide) ↦
                  inl (unfold lookup_node in rw (e, cut, lookup_node) panics, λ a. wide (narrow a))
              | inr r ↦ inr (record {
                found = r.found;
                runs = unfold lookup_node in rw (e, cut, lookup_node) r.runs;
                outcome =
                    Outcome-map (After arena n rest) (Walk arena id path) params r.found
                      (λ v caps a. enter stored split a)
                      (λ v caps w. Walk-After path rest stored split w) r.outcome;
              })
            ]
          ]
    ]

  lookup_recursive_step :
      (fuel id : ℕ) (n : Node) (path : Bytes) (params : PathParams)
      → get_elem? arena id ≡ some n
      → Runs path
          (lookup_node (lookup_recursive fuel arena) arena n path params)
          (Walk arena id path)
          params
      → Runs path (lookup_recursive (suc fuel) arena id path params) (Walk arena id path) params
  unfolding lookup_recursive
  lookup_recursive_step fuel id n path params stored (inl (panics, wide)) =
      inl (rw stored panics, wide)
  lookup_recursive_step fuel id n path params stored (inr r) =
      inr (record { found = r.found; runs = rw stored r.runs; outcome = r.outcome })

  lookup_recursive_lem : (fuel : ℕ) → IsLookup label arena fuel (lookup_recursive fuel arena)
  lookup_recursive_lem zero id n path params stored kept (enough, _, _) = absurd (omega arith)
  lookup_recursive_lem (suc fuel) id n path params stored kept enough =
      lookup_recursive_step fuel id n path params stored (
        lookup_node_lem fuel (lookup_recursive fuel arena) (lookup_recursive_lem fuel) id n
          (trie.sound id n stored) params kept path stored enough)

  -- The fuel of `lookup` is enough.
  pub lookup_lem : (path : Bytes) → Runs path (lookup arena path []) (Walk arena 0 path) []
  unfolding lookup
  lookup_lem path =
      lookup_recursive_lem (lookup_fuel path) 0 trie.root path [] trie.root_stored
        (rw trie.root_label) (omega arith, omega arith, inr (omega arith))
