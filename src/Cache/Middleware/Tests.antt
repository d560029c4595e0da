-- ===== src/Cache/Middleware/Tests.antt =====
-- The cache middleware over header maps that are lists, for two requests.
use rapina.Prelude.{
  inl, inr, Bool-cases, bytes_eq_iff, false, ◌≡◌, refl, List, [], ◌∷◌, Option, none, some,
  if◌then◌else◌, Bytes, bytes_eq, codes, arith, split, join,
}
use rapina.RoutePattern.{lex_le}
use rapina.Cache.{InMemoryCache, get, maybe_cleanup, alive}
use rapina.Cache.Middleware.{
  HeaderOps, Response, Request, Times, Handled, whole, handle, extract_ttl_header, parse_u64,
  build_cache_key, cache_status_header, cache_ttl_header, build_invalidation_prefixes,
  build_invalidation_prefixes_from_pattern,
}
use rapina.Cache.Middleware.Headers.{HeaderLaws, first_value}
use rapina.Cache.Middleware.Laws.{handle-handle}

abbrev Headers : Type 0
Headers = List (Bytes × Bytes)

abbrev value_of : Bytes → Headers → Option Bytes
value_of name [] = none
value_of name ((n, v) ∷ headers) = if bytes_eq n name then some v else value_of name headers

abbrev without : Bytes → Headers → Headers
without name [] = []
without name ((n, v) ∷ headers) =
    let rest = without name headers in if bytes_eq n name then rest else (n, v) ∷ rest

abbrev ops : HeaderOps Headers
ops = record {
  get = value_of;
  insert = λ n v headers. (n, v) ∷ without n headers;
  remove = without;
  iter = λ headers. headers;
  build = λ headers. headers;
  to_str = λ v. some v;
  empty = [];
}

abbrev users : Request
users = record {
  method = codes "GET";
  path = codes "/users";
  query = codes "page=2&limit=5";
  matched_pattern = some (codes "/users");
}

abbrev new_post : Request
new_post = record {
  method = codes "POST";
  path = codes "/users/42/posts";
  query = [];
  matched_pattern = some (codes "/users/:id/posts");
}

abbrev page : Response Headers
page = record {
  status = 200;
  headers = (codes "x-rapina-cache-ttl", codes "60") ∷ (codes "etag", codes "a1") ∷ [];
  body = whole (codes "[]");
}

abbrev nothing_cached : InMemoryCache
nothing_cached = record { entries = []; max_entries = 10; op_count = 0 }

abbrev times : Times
times = record {
  cleaned_at = 5;
  read_at = 6;
  removed_at = 7;
  set_cleaned_at = 8;
  evicted_at = 9;
  stored_at = 10;
}

asks : extract_ttl_header ops page ≡ some 60
unfolding extract_ttl_header parse_u64 bytes_eq
asks = refl

missed :
    (get 5 6 7 (build_cache_key (codes "/users") (codes "page=2&limit=5")) nothing_cached).0 ≡ none
unfolding get maybe_cleanup alive
missed = refl

iter_lem : (name : Bytes) (h : Headers) → value_of name h ≡ first_value name h
iter_lem name [] = refl
iter_lem name ((n, v) ∷ h) = rw (iter_lem name h) refl

without_other :
    (name other : Bytes) (h : Headers)
    → bytes_eq other name ≡ false
    → value_of name (without other h) ≡ value_of name h
without_other name other [] e = refl
without_other name other ((n, v) ∷ h) e =
    let rest = without_other name other h e in
    elim (Bool-cases (bytes_eq n other)) [
      | inl f ↦
          let same : n ≡ other = (bytes_eq_iff n other).0 f in
          let clear : bytes_eq n name ≡ false = rw same e in rw (f, clear) rest
      | inr f ↦ rw (f, rest) refl
    ]

insert_lem :
    (name other v : Bytes) (h : Headers)
    → value_of name ((other, v) ∷ without other h)
      ≡ (if bytes_eq other name then some v else value_of name h)
insert_lem name other v h = elim (Bool-cases (bytes_eq other name)) [
  | inl e ↦ rw e refl
  | inr e ↦ rw e (without_other name other h e)
]

lists : HeaderLaws ops
lists = record {
  get_iter = iter_lem;
  get_insert = insert_lem;
  get_build = λ name l texts. iter_lem name l;
}

etag_kept : bytes_eq (codes "etag") cache_ttl_header ≡ false
unfolding bytes_eq
etag_kept = refl

etag_unmarked : bytes_eq cache_status_header (codes "etag") ≡ false
unfolding bytes_eq
etag_unmarked = refl

handle-handle_example :
    (second : Handled Headers) × (handle ops times users page
        (handle ops times users page nothing_cached).cache
      ≡ second)
    × (second.ran ≡ false)
    × (second.response.status ≡ 200)
    × (second.response.body ≡ whole (codes "[]"))
    × (ops.get cache_status_header second.response.headers ≡ some (codes "HIT"))
    × (ops.get (codes "etag") second.response.headers ≡ ops.get (codes "etag") page.headers)
handle-handle_example =
    handle-handle ops times times users page page nothing_cached 60 (codes "[]") (codes "etag")
      lists (refl, (refl, tt)) etag_kept etag_unmarked refl missed asks refl (omega arith)
      (omega arith)

prefixes_run :
    build_invalidation_prefixes (codes "/users/42/posts") (some (codes "/users/:id/posts"))
    ≡ codes "GET:/users" ∷ codes "GET:/users/42/posts" ∷ []
unfolding build_invalidation_prefixes build_invalidation_prefixes_from_pattern split
prefixes_run = refl

key_run :
    build_cache_key (codes "/users") (codes "page=2&limit=5") ≡ codes "GET:/users?limit=5&page=2"
unfolding build_cache_key split join lex_le
key_run = refl
