-- ===== src/Router/Tests.antt =====
-- The theorems on the built tries and on the frozen router, for a site of four routes.
use rapina.Prelude.{
  IsAscii, ◌⊎◌, ℕ, ◌≡◌, refl, List, [], ◌∷◌, Option, some, none, Bytes, codes, unwrap_or,
  strip_prefix, split, bytes_eq,
}
use rapina.PathParams.{PathParams}
use rapina.Trie.Node.{
  Method, new_trie, new_node, until, position, common_prefix_len, method_index, index_in,
}
use rapina.Trie.Pattern.{static, param, split_pattern}
use rapina.Trie.Insert.{
  insert, split_node, set_value, insert_segments, insert_loop, insert_rest, insert_static,
  add_child, insert_param, split_if_needed,
}
use rapina.Trie.Reorder.{compute_priorities, reorder_children}
use rapina.Trie.Correct.{DistinctNames}
use rapina.RoutePattern.{is_dynamic}
use rapina.TrieRouter
use rapina.TrieRouter.{TrieRouter, add_route, add_routes, finish, no_tries, build}
use rapina.TrieRouter.Members.{NoRepeats}
use rapina.TrieRouter.Correct.{Ends, lookup_lem, build-total}
use rapina.Router.{Router, new, get_named, post_named, freeze, patterns}
use rapina.Router.Dispatch.{Handled, handle, resolve}
use rapina.Router.Correct.{Decides, Serves, resolve-freeze, handle-freeze}

engine : Unit {0}
unfolding insert split_pattern split_node set_value insert_segments insert_loop insert_rest
    insert_static add_child insert_param split_if_needed new_trie new_node until position
    common_prefix_len strip_prefix method_index index_in is_dynamic split bytes_eq add_route
    add_routes finish build compute_priorities reorder_children
engine = tt

abbrev site : Router ℕ ℕ
site = get_named (codes "/users/:id") (codes "user") 10 (
    get_named (codes "/users/me") (codes "me") 11 (
      post_named (codes "/users/:id") (codes "save") 12
        (get_named (codes "/users/:id/posts/:post") (codes "post") 13 new)))

abbrev listed : List (Method × Bytes)
listed = patterns site.routes

abbrev methods : TrieRouter
methods = unwrap_or (add_routes 0 listed no_tries) []

abbrev tries : TrieRouter
tries = unwrap_or (build listed) []

abbrev site_frozen : Router ℕ ℕ
site_frozen = unwrap_or (freeze site) new

added : add_routes 0 listed no_tries ≡ some methods
unfolding engine get_named post_named new
added = refl

tries_built : build listed ≡ some tries
unfolding engine get_named post_named new
tries_built = refl

frozen : freeze site ≡ some site_frozen
unfolding engine get_named post_named new freeze
frozen = refl

not_frozen : site.static_map ≡ none
unfolding get_named post_named new
not_frozen = refl

user_distinct : DistinctNames (codes "/users/:id")
unfolding engine
user_distinct segs e =
    let same : static (codes "/users/") ∷ param (codes "id") ∷ [] ≡ segs = cc in
    rw (← same) (tt, tt)

me_distinct : DistinctNames (codes "/users/me")
unfolding engine
me_distinct segs e = let same : static (codes "/users/me") ∷ [] ≡ segs = cc in rw (← same) tt

post_distinct : DistinctNames (codes "/users/:id/posts/:post")
unfolding engine
post_distinct segs e =
    let same : static (codes "/users/")
          ∷ param (codes "id")
          ∷ static (codes "/posts/")
          ∷ param (codes "post")
          ∷ []
        ≡ segs =
      cc in
    rw (← same) (tt, (((λ h. cc), tt), tt))

distinct : NoRepeats listed
unfolding get_named post_named new
distinct = (post_distinct, (user_distinct, (me_distinct, (user_distinct, tt))))

lookup_lem_example :
    Ends listed
      (codes "GET")
      (codes "/users/7")
      (TrieRouter.lookup tries (codes "GET") (codes "/users/7") [])
lookup_lem_example = lookup_lem listed tries (codes "GET") (codes "/users/7") distinct tries_built

build-total_example : (tries : TrieRouter) × (build listed ≡ some tries)
build-total_example = build-total listed methods distinct added

resolve-freeze_example :
    ((resolve site_frozen (codes "GET") (codes "/users/7/posts/3") ≡ none)
      × ¬ IsAscii (codes "/users/7/posts/3"))
    ⊎ ((answer : Option (ℕ × PathParams)) × (resolve site_frozen
            (codes "GET")
            (codes "/users/7/posts/3")
          ≡ some answer)
        × Decides listed (codes "GET") (codes "/users/7/posts/3") answer)
resolve-freeze_example =
    resolve-freeze site site_frozen (codes "GET") (codes "/users/7/posts/3") not_frozen distinct
      frozen

handle-freeze_example :
    ((handle site_frozen (codes "GET") (codes "/users/me") ≡ none) × ¬ IsAscii (codes "/users/me"))
    ⊎ ((handled : Handled ℕ) × (handle site_frozen (codes "GET") (codes "/users/me") ≡ some handled)
        × Serves site.routes (codes "GET") (codes "/users/me") handled)
handle-freeze_example =
    handle-freeze site site_frozen (codes "GET") (codes "/users/me") not_frozen distinct frozen
