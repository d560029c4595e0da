-- ===== src/StaticMap.antt =====
-- The table of the routes with no parameter (rapina/src/router/static_map.rs). The nested
-- `HashMap` from a method and a path to an index is an association list over both.
pub mod Laws
use rapina.Prelude.{
  ℕ, suc, ◌&&◌, List, [], ◌∷◌, Option, none, some, if◌then◌else◌, Bytes, bytes_eq, not,
}
use rapina.Trie.Node.{Method}
use rapina.RoutePattern.{is_dynamic}

abbrev pub StaticMap : Type 0
StaticMap = List (Method × Bytes × ℕ)

unfoldable pub insert : Method → Bytes → ℕ → StaticMap → StaticMap
insert method pattern idx [] = (method, pattern, idx) ∷ []
insert method pattern idx ((m, p, i) ∷ map) =
    if bytes_eq m method && bytes_eq p pattern
    then (method, pattern, idx) ∷ map
    else (m, p, i) ∷ insert method pattern idx map

build_from : ℕ → List (Method × Bytes) → StaticMap → StaticMap
unfolding insert is_dynamic
build_from idx [] map = map
build_from idx ((method, pattern) ∷ routes) map =
    build_from (suc idx) routes
      (if not (is_dynamic pattern) then insert method pattern idx map else map)

-- `build`, from the methods and the patterns of the routes.
unfoldable pub build : List (Method × Bytes) → StaticMap
unfolding build_from
build routes = build_from 0 routes []

unfoldable pub lookup : StaticMap → Method → Bytes → Option ℕ
lookup [] method path = none
lookup ((m, p, i) ∷ map) method path =
    if bytes_eq m method && bytes_eq p path then some i else lookup map method path
