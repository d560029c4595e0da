-- ===== src/Router/Dispatch.antt =====
-- The routing decision: `resolve`, `resolve_linear`, `resolve_pattern` and `handle`.
use rapina.Prelude.{
  ℕ, suc, List, [], ◌∷◌, Option, none, some, if◌then◌else◌, Bytes, bytes_eq, get_elem?, ◌>>=◌,
}
use rapina.PathParams.{PathParams, extract_path_params}
use rapina.Trie.Node.{Method}
use rapina.StaticMap
use rapina.TrieRouter
use rapina.Router.{Route, Router}

-- A handler that was called with parameters, or the 404 response.
pub data Handled (Handler : Type 0) : Type 0 where
  called : Handler → PathParams → Handled Handler
  not_found : Handled Handler

module _ {Json Handler : Type 0} where
  -- The second layer, behind the static table.
  abbrev pub resolve_dynamic :
      Router Json Handler → Method → Bytes → Option (Option (ℕ × PathParams))
  resolve_dynamic router method path = elim router.trie [
    | none ↦ some none
    | some trie ↦ do
      found ← TrieRouter.lookup trie method path []
      elim found.0 [ some idx ↦ some (some (idx, found.1)) | none ↦ some none ]
  ]

  abbrev pub static_index : Router Json Handler → Method → Bytes → Option ℕ
  static_index router method path = do map ← router.static_map; StaticMap.lookup map method path

  unfoldable pub resolve : Router Json Handler → Method → Bytes → Option (Option (ℕ × PathParams))
  resolve router method path = elim (static_index router method path) [
    | some idx ↦ some (some (idx, []))
    | none ↦ resolve_dynamic router method path
  ]

  abbrev pub linear_from :
      ℕ → List (Method × Route Json Handler) → Method → Bytes → Option (ℕ × PathParams)
  linear_from idx [] method path = none
  linear_from idx ((route_method, route) ∷ routes) method path =
      let later = linear_from (suc idx) routes method path in
      if bytes_eq route_method method
      then (elim (extract_path_params route.pattern path) [
        | some params ↦ some (idx, params)
        | none ↦ later
      ])
      else later

  unfoldable pub resolve_linear : Router Json Handler → Method → Bytes → Option (ℕ × PathParams)
  resolve_linear router method path = linear_from 0 router.routes method path

  unfoldable pub resolve_pattern : Router Json Handler → Method → Bytes → Option (Option Bytes)
  unfolding resolve
  resolve_pattern router method path = do
    answer ← resolve router method path
    elim answer [
      | none ↦ some none
      | some p ↦ do route ← get_elem? router.routes p.0; some (some route.1.pattern)
    ]

  -- The second layer of `handle`.
  abbrev pub handle_dynamic : Router Json Handler → Method → Bytes → Option (Handled Handler)
  handle_dynamic router method path = elim router.trie [
    | none ↦ some not_found
    | some trie ↦ do
      found ← TrieRouter.lookup trie method path []
      elim found.0 [
        | some idx ↦ do route ← get_elem? router.routes idx; some (called route.1.handler found.1)
        | none ↦ some not_found
      ]
  ]

  unfoldable pub handle : Router Json Handler → Method → Bytes → Option (Handled Handler)
  handle router method path = elim (static_index router method path) [
    | some idx ↦ do route ← get_elem? router.routes idx; some (called route.1.handler [])
    | none ↦ handle_dynamic router method path
  ]
