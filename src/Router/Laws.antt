-- ===== src/Router/Laws.antt =====
-- The routes of a group, the order of the routes, and the routing decision against `handle`.
use rapina.Prelude.{
  ℕ, false, ◌≡◌, refl, sym, ◌∙◌, List, [], ◌∷◌, ◌++◌, Option, none, some, Bytes, slash,
  starts_with_byte, get_elem?, ◌>>=◌, >>=-eq-some, inl, inr, ap, map, arith, Option-cases,
  Bool-cases, ◌⊎◌, append_assoc, append-nil,
}
use rapina.PathParams.{PathParams}
use rapina.Trie.Node.{Method}
use rapina.RoutePattern.{join_group_route_pattern}
use rapina.StaticMap
use rapina.StaticMap.Laws.{last_static, lookup-build}
use rapina.TrieRouter
use rapina.Router.{Route, Router, group, add_group, freeze, patterns}
use rapina.Router.Dispatch.{
  Handled, called, not_found, resolve, resolve_dynamic, static_index, handle, handle_dynamic,
}

module _ {Json Handler : Type 0} where
  -- What `handle` does with an answer of `resolve`.
  abbrev pub run_answer : Router Json Handler → Option (ℕ × PathParams) → Option (Handled Handler)
  run_answer router none = some not_found
  run_answer router (some (idx, params)) = do
    route ← get_elem? router.routes idx
    some (called route.1.handler params)

  handle_dynamic_lem :
      (router : Router Json Handler) (method path : Bytes)
      → handle_dynamic router method path
        ≡ (resolve_dynamic router method path >>= run_answer router)
  handle_dynamic_lem router method path = elim (Option-cases router.trie) [
    | inl e ↦ rw e refl
    | inr (trie, e) ↦ rw e (ground arith)
  ]

  -- `handle` runs the handler of the route that `resolve` decides on, with its parameters, and
  -- answers 404 where `resolve` finds none.
  pub handle-resolve :
      (router : Router Json Handler) (method path : Bytes)
      → handle router method path ≡ (resolve router method path >>= run_answer router)
  unfolding handle resolve
  handle-resolve router method path = elim (Option-cases (static_index router method path)) [
    | inl e ↦ rw (e, handle, resolve) (handle_dynamic_lem router method path)
    | inr (idx, e) ↦ rw (e, handle, resolve) refl
  ]

  freeze_fresh :
      (router frozen : Router Json Handler)
      → router.static_map ≡ none
      → freeze router ≡ some frozen
      → frozen.static_map ≡ some (StaticMap.build (patterns router.routes))
  unfolding freeze
  freeze_fresh router frozen fresh h =
      let (tries, _, e) =
        >>=-eq-some (TrieRouter.build (patterns router.routes)) _ (rw fresh at h) in
      let same : record router {
        static_map = some (StaticMap.build (patterns router.routes));
        trie = some tries;
      }
          ≡ frozen =
        cc in
      rw (← same) refl

  freeze-some :
      (router frozen : Router Json Handler)
      → freeze router ≡ some frozen
      → (table : StaticMap.StaticMap) × (frozen.static_map ≡ some table)
  freeze-some router frozen h = elim (Option-cases router.static_map) [
    | inl e ↦ (StaticMap.build (patterns router.routes), freeze_fresh router frozen e h)
    | inr (table, e) ↦
        let same : router ≡ frozen = unfold freeze in cc (rw e at h) in
        (table, ap (λ r. r.static_map) (sym same) ∙ e)
  ]

  -- Freezing a frozen router changes nothing.
  pub freeze_idem :
      (router frozen : Router Json Handler)
      → freeze router ≡ some frozen
      → freeze frozen ≡ some frozen
  unfolding freeze
  freeze_idem router frozen h = let (table, e) = freeze-some router frozen h in rw e refl

  -- A router that is frozen for the first time resolves the path of a route with no parameter to
  -- the last such route of the method, with no parameters, whatever its other routes are.
  pub resolve-static :
      (router frozen : Router Json Handler) (method path : Bytes) (idx : ℕ)
      → router.static_map ≡ none
      → freeze router ≡ some frozen
      → last_static 0 (patterns router.routes) method path ≡ some idx
      → resolve frozen method path ≡ some (some (idx, []))
  unfolding resolve
  resolve-static router frozen method path idx fresh h e =
      let table = freeze_fresh router frozen fresh h in
      let index : static_index frozen method path ≡ some idx =
        rw table (lookup-build (patterns router.routes) method path ∙ e) in
      rw (index, resolve) refl

  add_group_lem :
      (prefix : Bytes) (inner routes : List (Method × Route Json Handler))
      → add_group prefix inner routes
        ≡ routes
          ++ map
              (λ r. (r.0, record r.1 { pattern = join_group_route_pattern prefix r.1.pattern }))
              inner
  add_group_lem prefix [] routes = sym (append-nil routes)
  add_group_lem prefix (r ∷ inner) routes =
      add_group_lem prefix inner
        (routes ++ (r.0, record r.1 { pattern = join_group_route_pattern prefix r.1.pattern }) ∷ [])
      ∙ append_assoc routes _ _

  -- A group keeps the routes of the outer router and adds those of the inner router in their order,
  -- each under its joined pattern; its prefix must start with a slash, or the call panics.
  pub group_routes :
      (prefix : Bytes) (inner router : Router Json Handler)
      → ((starts_with_byte slash prefix ≡ false) × (group prefix inner router ≡ none))
        ⊎ ((after : Router Json Handler) × (group prefix inner router ≡ some after)
            × (after.routes
                ≡ router.routes
                  ++ map
                      (λ r.
                        (r.0, record r.1 { pattern = join_group_route_pattern prefix r.1.pattern }))
                      inner.routes))
  unfolding group
  group_routes prefix inner router = elim (Bool-cases (starts_with_byte slash prefix)) [
    | inl e ↦ inr (
      record router { routes = add_group prefix inner.routes router.routes },
      rw e refl,
      add_group_lem prefix inner.routes router.routes,
    )
    | inr e ↦ inl (e, rw e refl)
  ]
