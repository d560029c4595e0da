-- ===== src/TrieRouter.antt =====
-- One trie for each standard method (`TrieRouter` in rapina/src/router/trie.rs).
pub mod Slots
pub mod Members
pub mod Finish
pub mod Correct
use rapina.Prelude.{
  ℕ, suc, List, [], ◌∷◌, Option, none, some, if◌then◌else◌, Bytes, get_elem?, set, ◌>>=◌, unwrap_or,
}
use rapina.PathParams.{PathParams}
use rapina.Trie.Node.{Method, Arena, method_index, new_trie}
use rapina.Trie.Insert
use rapina.Trie.Lookup
use rapina.Trie.Lookup.{Found}
use rapina.Trie.Reorder.{compute_priorities, reorder_children}
use rapina.RoutePattern.{is_dynamic}

abbrev pub TrieRouter : Type 0
TrieRouter = List (Option Arena)

abbrev pub no_tries : TrieRouter
no_tries = none ∷ none ∷ none ∷ none ∷ none ∷ none ∷ none ∷ none ∷ none ∷ []

-- A dynamic route goes into its method's trie; an extension method panics.
unfoldable pub add_route : ℕ → Method → Bytes → TrieRouter → Option TrieRouter
unfolding is_dynamic method_index new_trie Insert.insert
add_route idx method pattern methods =
    if is_dynamic pattern
    then (do
      mi ← method_index method
      slot ← get_elem? methods mi
      trie ← Insert.insert (unwrap_or slot new_trie) pattern idx
      some (set methods mi (some trie)))
    else some methods

unfoldable pub add_routes : ℕ → List (Method × Bytes) → TrieRouter → Option TrieRouter
unfolding add_route
add_routes idx [] methods = some methods
add_routes idx ((method, pattern) ∷ routes) methods = do
  methods' ← add_route idx method pattern methods
  add_routes (suc idx) routes methods'

-- `compute_priorities` and `reorder_children` on each trie that there is.
unfoldable pub finish : TrieRouter → Option TrieRouter
unfolding compute_priorities reorder_children
finish [] = some []
finish (none ∷ slots) = do some (none ∷ (← finish slots))
finish (some trie ∷ slots) = do
  counted ← compute_priorities trie
  ordered ← reorder_children counted
  rest ← finish slots
  some (some ordered ∷ rest)

unfoldable pub build : List (Method × Bytes) → Option TrieRouter
unfolding add_routes finish
build routes = do methods ← add_routes 0 routes no_tries; finish methods

-- `none` is a panic, which a trie that `build` made does not raise.
unfoldable pub lookup : TrieRouter → Method → Bytes → PathParams → Option Found
unfolding method_index Lookup.lookup
lookup methods method path params = elim (method_index method) [
  | none ↦ some (none, params)
  | some idx ↦ do
    slot ← get_elem? methods idx
    elim slot [ none ↦ some (none, params) | some trie ↦ Lookup.lookup trie path params ]
]
