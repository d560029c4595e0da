-- ===== src/Tests.antt =====
-- The theorems at concrete values, for all parts but the trie's (Trie/Tests).
use mathlib.Core.List.{Permᴰ, Memᴰ}
use rapina.Prelude.{
  ℕ, true, false, ◌≡◌, ◌↔◌, ◌⊎◌, refl, ◌+◌, ◌*◌, ◌<◌, ◌≤◌, List, [], ◌∷◌, ◌++◌, none, some,
  if◌then◌else◌, ltb, Bytes, codes, slash, split, starts_with, starts_with_byte, bytes_eq, arith,
  is_some, ◌&&◌, length, map, unwrap_or, ◌>>=◌,
}
use rapina.PathParams.{PathParams, get, push, remove, extract_path_params}
use rapina.PathParams.Laws.{remove-push}
use rapina.PathParams.Matching.{Captures, insert_all, extract_path_params_iff}
use rapina.RoutePattern.{is_dynamic, join_group_route_pattern}
use rapina.RoutePattern.Laws.{Joins, join_group_lem}
use rapina.StaticMap
use rapina.StaticMap.Laws.{last_static, lookup-build}
use rapina.Trie.Node.{Method, until, common_prefix_len, position}
use rapina.Trie.Pattern.{split_pattern}
use rapina.Trie.Insert.{insert_segments, set_value}
use rapina.Router.{Router, new, get_named, group, freeze, sort_routes, patterns}
use rapina.Router.Dispatch.{handle, resolve}
use rapina.Router.Laws.{run_answer, handle-resolve, resolve-static, group_routes}
use rapina.Router.Order.{NoWinners, only, has_specificity, sort_routes_lem}
use rapina.Cache
use rapina.Cache.{CachedResponse, CacheEntry, InMemoryCache, find, invalidate_prefix}
use rapina.Cache.Laws.{IsBounded, set-IsBounded, get-set, get-alive, find-invalidate_prefix}
use rapina.Error.{Result, ok}
use rapina.Pagination.{Paginate, Paginated, from_query, exec}
use rapina.Pagination.Laws.{from_query_iff, exec-has_next}
use rapina.Pagination.Cursor.{
  CursorPaginateQuery, CursorPaginate, CursorPaginated, forward, cursor_from_query, exec_by,
}
use rapina.Pagination.Bounds.{IsKept, cursor_from_query_lem, exec_by-bounded}
use rapina.Cors.{with_origins, add_cors_headers, allow_origin}
use rapina.Cors.Laws.{Allows, add_cors_headers_iff}
use rapina.Auth.{matches_pattern, is_public}
use rapina.Auth.Public.{IsPublicRoute, matches_pattern_lem, is_public_iff}

abbrev id_name : Bytes
id_name = codes "id"

abbrev one_param : PathParams
one_param = (codes "id", codes "42") ∷ []

remove-push_example :
    remove (codes "tab") (push (codes "tab") (codes "a") one_param) ≡ (one_param, some (codes "a"))
remove-push_example = remove-push (codes "tab") (codes "a") one_param ((λ e. cc), tt)

extract_path_params_iff_example :
    (extract_path_params (codes "/users/:id") (codes "/users/42") ≡ some one_param) ↔ (
      (caps : PathParams) × Captures
        (split slash (codes "/users/:id"))
        (split slash (codes "/users/42"))
        caps
      × (one_param ≡ insert_all caps []))
extract_path_params_iff_example =
    extract_path_params_iff (codes "/users/:id") (codes "/users/42") one_param

join_group_lem_example :
    Joins
      (codes "/api")
      (codes "users")
      (join_group_route_pattern (codes "/api" ++ codes "//") (codes "/" ++ codes "users"))
join_group_lem_example = join_group_lem 2 1 (codes "/api") (codes "users") refl refl

abbrev two_routes : List (Method × Bytes)
two_routes = (codes "GET", codes "/a") ∷ (codes "GET", codes "/a") ∷ []

lookup-build_example :
    StaticMap.lookup (StaticMap.build two_routes) (codes "GET") (codes "/a")
    ≡ last_static 0 two_routes (codes "GET") (codes "/a")
lookup-build_example = lookup-build two_routes (codes "GET") (codes "/a")

-- A router whose handlers are numbers.
abbrev site : Router Bytes ℕ
site =
    get_named (codes "/about") (codes "about") 1 (get_named (codes "/:page") (codes "page") 0 new)

abbrev site_frozen : Router Bytes ℕ
site_frozen = unwrap_or (freeze site) site

handle-resolve_example :
    handle site_frozen (codes "GET") (codes "/about")
    ≡ (resolve site_frozen (codes "GET") (codes "/about") >>= run_answer site_frozen)
handle-resolve_example = handle-resolve site_frozen (codes "GET") (codes "/about")

group_routes_example :
    ((starts_with_byte slash (codes "/api") ≡ false) × (group (codes "/api") site site ≡ none))
    ⊎ ((after : Router Bytes ℕ) × (group (codes "/api") site site ≡ some after)
        × (after.routes
            ≡ site.routes
              ++ map
                  (λ r. (
                    r.0,
                    record r.1 { pattern = join_group_route_pattern (codes "/api") r.1.pattern },
                  ))
                  site.routes))
group_routes_example = group_routes (codes "/api") site site

sort_routes_lem_example :
    Permᴰ site.routes (sort_routes site).routes
    × NoWinners (sort_routes site).routes
    × (only (has_specificity (0 ∷ 1 ∷ [])) (sort_routes site).routes
        ≡ only (has_specificity (0 ∷ 1 ∷ [])) site.routes)
sort_routes_lem_example = sort_routes_lem site (0 ∷ 1 ∷ [])

abbrev empty_cache : InMemoryCache
empty_cache = record { entries = []; max_entries = 1; op_count = 0 }

abbrev page_response : CachedResponse
page_response = record { status = 200; headers = []; body = codes "hi" }

set-IsBounded_example : IsBounded (Cache.set 5 5 5 (codes "GET:/") page_response 10 empty_cache)
set-IsBounded_example =
    set-IsBounded 5 5 5 10 (codes "GET:/") page_response empty_cache (omega arith) (omega arith)

get-set_example :
    (Cache.get 6 7 7
      (codes "GET:/")
      (Cache.set 5 5 5 (codes "GET:/") page_response 10 empty_cache)).0
    ≡ (if ltb 7 (5 + 10) then some page_response else none)
get-set_example = get-set 5 5 5 10 6 7 7 (codes "GET:/") page_response empty_cache (omega arith)

find-invalidate_prefix_example :
    find
      (codes "GET:/users")
      (invalidate_prefix
        (codes "GET:/u")
        (Cache.set 5 5 5 (codes "GET:/users") page_response 10 empty_cache)).entries
    ≡ (if starts_with (codes "GET:/u") (codes "GET:/users")
        then none
        else find
            (codes "GET:/users")
            (Cache.set 5 5 5 (codes "GET:/users") page_response 10 empty_cache).entries)
find-invalidate_prefix_example =
    find-invalidate_prefix (codes "GET:/u") (codes "GET:/users")
      (Cache.set 5 5 5 (codes "GET:/users") page_response 10 empty_cache)

matches_pattern_lem_example :
    matches_pattern (codes "/users/:id") (codes "/users/42")
    ≡ is_some (extract_path_params (codes "/users/:id") (codes "/users/42"))
matches_pattern_lem_example = matches_pattern_lem (codes "/users/:id") (codes "/users/42")

is_public_iff_example :
    (is_public ((codes "GET", codes "/login") ∷ []) (codes "GET") (codes "/login") ≡ true) ↔ (
      (starts_with (codes "/__rapina") (codes "/login") ≡ true)
      ⊎ IsPublicRoute ((codes "GET", codes "/login") ∷ []) (codes "GET") (codes "/login"))
is_public_iff_example =
    is_public_iff ((codes "GET", codes "/login") ∷ []) (codes "GET") (codes "/login")

site_freezes : freeze site ≡ some site_frozen
unfolding freeze get_named new bytes_eq split_pattern until insert_segments common_prefix_len
    position set_value
site_freezes = refl

about_index : last_static 0 (patterns site.routes) (codes "GET") (codes "/about") ≡ some 1
unfolding get_named bytes_eq split new is_dynamic
about_index = refl

fresh : site.static_map ≡ none
unfolding get_named new
fresh = refl

resolve-static_example : resolve site_frozen (codes "GET") (codes "/about") ≡ some (some (1, []))
resolve-static_example =
    resolve-static site site_frozen (codes "GET") (codes "/about") 1 fresh site_freezes about_index

get_alive_run :
    (Cache.get 6 7 7
      (codes "GET:/")
      (Cache.set 5 5 5 (codes "GET:/") page_response 10 empty_cache)).0
    ≡ some page_response
get_alive_run = get-set_example

get-alive_example :
    (entry : CacheEntry) × Memᴰ
      (codes "GET:/", entry)
      (Cache.set 5 5 5 (codes "GET:/") page_response 10 empty_cache).entries
    × (entry.response ≡ page_response)
    × (7 < entry.expires_at)
get-alive_example =
    get-alive 6 7 7 (codes "GET:/") (Cache.set 5 5 5 (codes "GET:/") page_response 10 empty_cache)
      page_response get_alive_run

abbrev first_page : Paginate
first_page = record { page = 1; per_page = 20 }

from_query_iff_example :
    (from_query {Json = Bytes} (λ _. []) none (record { page = none; per_page = none })
      ≡ ok first_page)
    ↔ ((first_page.page ≡ 1)
        × (first_page.per_page ≡ 20)
        × (1 ≤ first_page.page)
        × (1 ≤ first_page.per_page)
        × (first_page.per_page ≤ 100))
from_query_iff_example =
    from_query_iff (λ _. []) none (record { page = none; per_page = none }) first_page

exec-has_next_example :
    (out : Paginated ℕ) × (exec {E = Bytes} (λ _. ok (7 ∷ [])) (ok 21) first_page ≡ ok out)
    × (out.data_rows ≡ 7 ∷ [])
    × (out.total ≡ 21)
    × ((out.has_next ≡ true) ↔ (1 * 20 < 21))
    × ((out.has_prev ≡ true) ↔ (1 < 1))
exec-has_next_example = exec-has_next (λ _. ok (7 ∷ [])) (7 ∷ []) 21 first_page (omega arith) refl

-- Header maps as association lists, newest entry first.
abbrev put_header : Bytes → Bytes → PathParams → PathParams
put_header name value headers = (name, value) ∷ headers

put_header_law :
    (k j v : Bytes) (h : PathParams)
    → get k (put_header j v h) ≡ (if bytes_eq j k then some v else get k h)
unfolding get
put_header_law k j v h = refl

abbrev shop : Bytes
shop = codes "https://shop"

no_header : get allow_origin [] ≡ none
unfolding get
no_header = refl

add_cors_headers_iff_example :
    (get allow_origin (add_cors_headers some put_header (with_origins (shop ∷ [])) (some shop) [])
      ≡ some shop)
    ↔ Allows some (with_origins (shop ∷ [])).allowed_origins (some shop) shop
add_cors_headers_iff_example =
    add_cors_headers_iff some get put_header put_header_law (with_origins (shop ∷ [])) (some shop)
      [] shop no_header

abbrev tokenless : CursorPaginateQuery
tokenless = record { after = none; before = none; limit = some 2 }

abbrev two_rows : CursorPaginate ℕ
two_rows = record { after = none; before = none; limit = 2; direction = forward }

cursor_accepts : cursor_from_query {Json = Bytes} (λ _. []) (λ _. ok 0) none tokenless ≡ ok two_rows
unfolding cursor_from_query
cursor_accepts = refl

cursor_from_query_lem_example :
    (1 ≤ two_rows.limit)
    × (two_rows.limit ≤ 100)
    × ((is_some tokenless.after && is_some tokenless.before) ≡ false)
cursor_from_query_lem_example =
    cursor_from_query_lem {Json = Bytes} (λ _. []) (λ _. ok 0) none tokenless two_rows
      cursor_accepts

abbrev cut_page : CursorPaginated ℕ
cut_page = record { data_rows = 5 ∷ 6 ∷ []; next_cursor = some (6 ∷ []); prev_cursor = none }

abbrev three_rows : Result (List ℕ) Bytes
three_rows = ok (5 ∷ 6 ∷ 7 ∷ [])

cut_runs :
    exec_by {E = Bytes} (λ v. ok (v ∷ [])) (λ row. row) (λ _ _ _ _. three_rows) two_rows
    ≡ ok cut_page
unfolding exec_by
cut_runs = refl

exec_by-bounded_example :
    (rows : List ℕ) × (rest : List ℕ) × (three_rows ≡ ok rows)
    × IsKept forward cut_page.data_rows rest rows
    × ((rest ≡ []) ⊎ (length cut_page.data_rows ≡ 2))
    × (length cut_page.data_rows ≤ 2)
exec_by-bounded_example =
    exec_by-bounded (λ v. ok (v ∷ [])) (λ row. row) (λ _ _ _ _. three_rows) two_rows cut_page
      (omega arith) cut_runs
