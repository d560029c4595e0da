-- ===== src/Router/Correct.antt =====
-- The decisions of a frozen router, against its routes.
use rapina.Prelude.{
  ℕ, zero, suc, ◌&&◌, ◌≡◌, ◌+◌, refl, ◌∙◌, ◌⊎◌, inl, inr, List, [], ◌∷◌, Option, none, some, Bytes,
  IsAscii, not, bytes_eq, bytes_eq_iff, Bool-cases, get_elem?, >>=-eq-some, Option-cases, arith,
}
use rapina.PathParams.{PathParams}
use rapina.Trie.Node.{Method}
use rapina.Trie.Lookup.{Found}
use rapina.Trie.Correct.{PatternFits}
use rapina.RoutePattern.{is_dynamic}
use rapina.StaticMap
use rapina.StaticMap.Laws.{last_static, lookup-build}
use rapina.TrieRouter
use rapina.TrieRouter.{TrieRouter}
use rapina.TrieRouter.Members.{IsDynamicRoute, NoRepeats}
use rapina.TrieRouter.Correct
use rapina.TrieRouter.Correct.{Answers, hit, miss}
use rapina.Router.{Route, Router, freeze, patterns}
use rapina.Router.Dispatch.{
  Handled, called, not_found, handle, resolve, resolve_dynamic, static_index,
}
use rapina.Router.Laws.{handle-resolve, run_answer}

-- A right decision on a method and a path: the last route with no parameter that has the method
-- and is the path, or else a route with parameters that has the method and fits the path, with
-- its captures, or none where no route fits.
pub data Decides (routes : List (Method × Bytes)) (method path : Bytes)
    : Option (ℕ × PathParams) → Type 0 where
  exact :
      {idx : ℕ}
      → last_static 0 routes method path ≡ some idx
      → Decides routes method path (some (idx, []))
  fitting :
      {pattern : Bytes} {idx : ℕ} {caps : PathParams}
      → last_static 0 routes method path ≡ none
      → IsDynamicRoute routes method pattern idx
      → PatternFits pattern path caps
      → Decides routes method path (some (idx, caps))
  nowhere :
      last_static 0 routes method path ≡ none
      → ((pattern : Bytes) (idx : ℕ) (caps : PathParams)
          → IsDynamicRoute routes method pattern idx
          → ¬ PatternFits pattern path caps)
      → Decides routes method path none

last_static_stored :
    (idx v : ℕ) (routes : List (Method × Bytes)) (method path : Bytes)
    → last_static idx routes method path ≡ some v
    → (k : ℕ) × (v ≡ idx + k) × (get_elem? routes k ≡ some (method, path))
last_static_stored idx v [] method path h = cc
last_static_stored idx v ((m, p) ∷ routes) method path h =
    elim (Option-cases (last_static (suc idx) routes method path)) [
      | inr (w, e) ↦
          let same : w ≡ v = cc (rw e at h) in
          let (k, there, stored) = last_static_stored (suc idx) w routes method path e in
          (suc k, omega (arith, there, same), stored)
      | inl e ↦ elim (Bool-cases (not (is_dynamic p) && (bytes_eq m method && bytes_eq p path))) [
        | inl b ↦
            let same : idx ≡ v = cc (rw (e, b) at h) in
            let same_m : m ≡ method = ground (arith, bytes_eq_iff m method) in
            let same_p : p ≡ path = ground (arith, bytes_eq_iff p path) in
            (zero, omega arith, rw (same_m, same_p) refl)
        | inr b ↦ cc (rw (e, b) at h)
      ]
    ]

module _ {Json Handler : Type 0} where
  -- The table and the tries of a router that is frozen for the first time.
  record Frozen (router frozen : Router Json Handler) : Type 0 where
    tries : TrieRouter
    builds : TrieRouter.build (patterns router.routes) ≡ some tries
    static_map : frozen.static_map ≡ some (StaticMap.build (patterns router.routes))
    trie : frozen.trie ≡ some tries
    routes : frozen.routes ≡ router.routes

  freeze-Frozen :
      (router frozen : Router Json Handler)
      → router.static_map ≡ none
      → freeze router ≡ some frozen
      → Frozen router frozen
  unfolding freeze
  freeze-Frozen router frozen fresh h =
      let (tries, builds, e) =
        >>=-eq-some (TrieRouter.build (patterns router.routes)) _ (rw fresh at h) in
      let same : record router {
        static_map = some (StaticMap.build (patterns router.routes));
        trie = some tries;
      }
          ≡ frozen =
        cc in
      rw (← same)
        (record { tries = tries; builds = builds; static_map = refl; trie = refl; routes = refl })

  decided :
      (router : Router Json Handler) (tries : TrieRouter) (routes : List (Method × Bytes))
      (method path : Bytes) (found : Found)
      → router.trie ≡ some tries
      → TrieRouter.lookup tries method path [] ≡ some found
      → last_static 0 routes method path ≡ none
      → Answers routes method path found
      → (answer : Option (ℕ × PathParams)) × (resolve_dynamic router method path ≡ some answer)
        × Decides routes method path answer
  decided router tries routes method path (some v, caps) built found none_static (hit r fits) =
      (some (v, caps), rw (built, found) refl, fitting none_static r fits)
  decided router tries routes method path (none, []) built found none_static (miss never) =
      (none, rw (built, found) refl, nowhere none_static never)
  decided router tries routes method path (none, _ ∷ _) built found none_static right =
      elim right [ ]

  -- A router that is frozen for the first time, no pattern of which names a parameter twice,
  -- resolves any method and path to a right decision on its routes, or panics, and then the path is
  -- not all ASCII. A right decision is the last route with no parameter that has the method and is
  -- the path; or else a route with parameters that has the method and fits the path, with its
  -- captures; or none, where no route fits.
  pub resolve-freeze :
      (router frozen : Router Json Handler) (method path : Bytes)
      → router.static_map ≡ none
      → NoRepeats (patterns router.routes)
      → freeze router ≡ some frozen
      → ((resolve frozen method path ≡ none) × ¬ IsAscii path)
        ⊎ ((answer : Option (ℕ × PathParams)) × (resolve frozen method path ≡ some answer)
            × Decides (patterns router.routes) method path answer)
  unfolding resolve
  resolve-freeze router frozen method path fresh distinct h =
      let f = freeze-Frozen router frozen fresh h in
      let table : static_index frozen method path
          ≡ last_static 0 (patterns router.routes) method path =
        rw f.static_map (lookup-build (patterns router.routes) method path) in
      elim (Option-cases (last_static 0 (patterns router.routes) method path)) [
        | inr (idx, e) ↦ inr (some (idx, []), rw (table ∙ e, resolve) refl, exact e)
        | inl e ↦
            elim (Correct.lookup_lem (patterns router.routes) f.tries method path distinct
              f.builds) [
                | inl (panics, wide) ↦
                    inl (rw (table ∙ e, resolve) (rw (f.trie, panics) refl), wide)
                | inr (found, looked, right) ↦
                    let (answer, dynamic, decides) =
                      decided frozen f.tries (patterns router.routes) method path found f.trie
                        looked e right in
                    inr (answer, rw (table ∙ e, resolve) dynamic, decides)
              ]
      ]

  -- A right outcome of a request: the handler of the route that a right decision names, with the
  -- captures, or the 404 response where the right decision is that no route fits.
  pub data Serves (routes : List (Method × Route Json Handler)) (method path : Bytes)
      : Handled Handler → Type 0 where
    serves :
        {route : Route Json Handler} {idx : ℕ} {caps : PathParams}
        → get_elem? routes idx ≡ some (method, route)
        → Decides (patterns routes) method path (some (idx, caps))
        → Serves routes method path (called route.handler caps)
    refuses : Decides (patterns routes) method path none → Serves routes method path not_found

  pattern_stored :
      (routes : List (Method × Route Json Handler)) (idx : ℕ) (method pattern : Bytes)
      → get_elem? (patterns routes) idx ≡ some (method, pattern)
      → (route : Route Json Handler) × (get_elem? routes idx ≡ some (method, route))
  pattern_stored [] idx method pattern h = cc
  pattern_stored ((m, route) ∷ routes) zero method pattern h =
      let same : m ≡ method = cc h in (route, rw same refl)
  pattern_stored (r ∷ routes) (suc idx) method pattern h =
      pattern_stored routes idx method pattern h

  decision_stored :
      (routes : List (Method × Route Json Handler)) (method path : Bytes) (idx : ℕ)
      (caps : PathParams)
      → Decides (patterns routes) method path (some (idx, caps))
      → (route : Route Json Handler) × (get_elem? routes idx ≡ some (method, route))
  decision_stored routes method path idx caps (exact e) =
      let (k, there, stored) = last_static_stored 0 idx (patterns routes) method path e in
      let same : k ≡ idx = omega arith in pattern_stored routes idx method path (rw same at stored)
  decision_stored routes method path idx caps (fitting {pattern} none_static r fits) =
      pattern_stored routes idx method pattern r.listed

  served :
      (frozen : Router Json Handler) (routes : List (Method × Route Json Handler))
      (method path : Bytes) (answer : Option (ℕ × PathParams))
      → frozen.routes ≡ routes
      → Decides (patterns routes) method path answer
      → (handled : Handled Handler) × (run_answer frozen answer ≡ some handled)
        × Serves routes method path handled
  served frozen routes method path none same d = (not_found, refl, refuses d)
  served frozen routes method path (some (idx, caps)) same d =
      let (route, stored) = decision_stored routes method path idx caps d in
      (called route.handler caps, rw (same, stored) refl, serves stored d)

  -- A router that is frozen for the first time, no pattern of which names a parameter twice, serves
  -- any method and path, or panics, and then the path is not all ASCII: `handle` calls the handler of
  -- the route of this method that a right decision names, with the captures, or answers 404 where no
  -- route fits.
  pub handle-freeze :
      (router frozen : Router Json Handler) (method path : Bytes)
      → router.static_map ≡ none
      → NoRepeats (patterns router.routes)
      → freeze router ≡ some frozen
      → ((handle frozen method path ≡ none) × ¬ IsAscii path)
        ⊎ ((handled : Handled Handler) × (handle frozen method path ≡ some handled)
            × Serves router.routes method path handled)
  handle-freeze router frozen method path fresh distinct h =
      elim (resolve-freeze router frozen method path fresh distinct h) [
        | inl (panics, wide) ↦ inl (handle-resolve frozen method path ∙ rw panics refl, wide)
        | inr (answer, resolved, decides) ↦
            let (handled, runs, right) =
              served frozen router.routes method path answer
                (freeze-Frozen router frozen fresh h).routes decides in
            inr (handled, handle-resolve frozen method path ∙ rw resolved runs, right)
      ]
