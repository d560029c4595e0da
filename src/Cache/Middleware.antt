-- ===== src/Cache/Middleware.antt =====
-- The cache middleware of rapina/src/cache.rs, over the in-memory backend. The header maps of the
-- `http` library and the text of a header's value are parameters, and the rest of the chain is the
-- response that it gives.
pub mod Headers
pub mod Prefixes
pub mod Laws
pub mod Tests
use rapina.Prelude.{
  ℕ, Bool, true, false, ◌&&◌, ◌||◌, not, ◌+◌, ◌-◌, ◌*◌, ◌^◌, List, [], ◌∷◌, ◌++◌, Option, none,
  some, if◌then◌else◌, Bytes, bytes_eq, codes, split, join, slash, is_empty, ltb, leb, ◌==◌,
  sort_by, starts_with_byte, colon, map, unwrap_or, ◌>>=◌,
}
use rapina.RoutePattern.{lex_le}
use rapina.Trie.Node.{Method}
use rapina.Cache
use rapina.Cache.{CachedResponse, InMemoryCache, invalidate_prefix}

abbrev pub cache_ttl_header : Bytes
cache_ttl_header = codes "x-rapina-cache-ttl"

abbrev pub cache_status_header : Bytes
cache_status_header = codes "x-cache"

abbrev pub filter : (Bytes → Bool) → List Bytes → List Bytes
filter keep [] = []
filter keep (s ∷ ss) = let rest = filter keep ss in if keep s then s ∷ rest else rest

unfoldable pub build_cache_key : Bytes → Bytes → Bytes
unfolding split join lex_le
build_cache_key path query =
    if is_empty query
    then codes "GET:" ++ path
    else codes "GET:"
      ++ (path ++ (codes "?" ++ join (codes "&") (sort_by lex_le (split (b'&') query))))

abbrev pub segments_of : Bytes → List Bytes
segments_of path = filter (λ s. not (is_empty s)) (split slash path)

-- The prefixes of the path, on the text of it so far.
abbrev pub prefixes_from : Bytes → List Bytes → List Bytes
prefixes_from current [] = []
prefixes_from current (s ∷ ss) =
    let next = current ++ slash ∷ s in (codes "GET:" ++ next) ∷ prefixes_from next ss

-- The walk along the pattern and the path, to the end of the shorter.
abbrev pub prefixes_along : Bytes → List Bytes → List Bytes → List Bytes
prefixes_along current [] ss = []
prefixes_along current (p ∷ ps) [] = []
prefixes_along current (p ∷ ps) (s ∷ ss) =
    let next = current ++ slash ∷ s in
    let rest = prefixes_along next ps ss in
    if starts_with_byte colon p then rest else (codes "GET:" ++ next) ∷ rest

unfoldable pub build_invalidation_prefixes_from_pattern : Bytes → Bytes → List Bytes
unfolding split
build_invalidation_prefixes_from_pattern path pattern =
    prefixes_along [] (segments_of pattern) (segments_of path)

unfoldable pub build_invalidation_prefixes : Bytes → Option Bytes → List Bytes
unfolding split build_invalidation_prefixes_from_pattern
build_invalidation_prefixes path (some pattern) =
    build_invalidation_prefixes_from_pattern path pattern
build_invalidation_prefixes path none = prefixes_from [] (segments_of path)

unfoldable pub is_mutation : Method → Bool
unfolding bytes_eq
is_mutation method =
    bytes_eq method (codes "POST")
    || (bytes_eq method (codes "PUT")
        || (bytes_eq method (codes "DELETE") || bytes_eq method (codes "PATCH")))

-- `str::parse` into a `u64`: a sign `+`, which may be left out, and digits.
abbrev pub digits_from : ℕ → Bytes → Option ℕ
digits_from n [] = some n
digits_from n (c ∷ s) =
    if leb (b'0') c && (leb c (b'9') && ltb (n * 10 + (c - b'0')) (2 ^ 64))
    then digits_from (n * 10 + (c - b'0')) s
    else none

abbrev pub without_sign : Bytes → Bytes
without_sign [] = []
without_sign (c ∷ s) = if c == b'+' then s else c ∷ s

unfoldable pub parse_u64 : Bytes → Option ℕ
parse_u64 s = if is_empty (without_sign s) then none else digits_from 0 (without_sign s)

-- What the code uses of a `HeaderMap`, and `to_str` of a value. `build` adds names and values to an
-- empty map, without those that are not valid.
pub record HeaderOps (Headers : Type 0) : Type 0 where
  pub get : Bytes → Headers → Option Bytes
  pub insert : Bytes → Bytes → Headers → Headers
  pub remove : Bytes → Headers → Headers
  pub iter : Headers → List (Bytes × Bytes)
  pub build : List (Bytes × Bytes) → Headers
  pub to_str : Bytes → Option Bytes
  pub empty : Headers

-- A body of known size, one of known size that breaks off, or a stream.
pub data Body : Type 0 where
  whole : Bytes → Body
  broken : Body
  stream : Body

pub record Response (Headers : Type 0) : Type 0 where
  pub status : ℕ
  pub headers : Headers
  pub body : Body

pub record Request : Type 0 where
  pub method : Method
  pub path : Bytes
  pub query : Bytes
  pub matched_pattern : Option Bytes

-- The readings of the clock in a lookup and in a store.
pub record Times : Type 0 where
  pub cleaned_at : ℕ
  pub read_at : ℕ
  pub removed_at : ℕ
  pub set_cleaned_at : ℕ
  pub evicted_at : ℕ
  pub stored_at : ℕ

-- The answer, the cache behind it, and whether the rest of the chain ran.
pub record Handled (Headers : Type 0) : Type 0 where
  pub response : Response Headers
  pub cache : InMemoryCache
  pub ran : Bool

abbrev pub nanoseconds : ℕ → ℕ
nanoseconds seconds = seconds * 1000000000

abbrev pub is_success : ℕ → Bool
is_success status = leb 200 status && ltb status 300

unfoldable pub invalidate_all : List Bytes → InMemoryCache → InMemoryCache
unfolding invalidate_prefix
invalidate_all [] cache = cache
invalidate_all (p ∷ prefixes) cache = invalidate_all prefixes (invalidate_prefix p cache)

module _ {Headers : Type 0} (ops : HeaderOps Headers) where
  unfoldable pub extract_ttl_header : Response Headers → Option ℕ
  unfolding parse_u64
  extract_ttl_header response = do
    v ← ops.get cache_ttl_header response.headers
    s ← ops.to_str v
    parse_u64 s

  unfoldable pub build_response_from_cache : CachedResponse → Bytes → Response Headers
  build_response_from_cache cached status = record {
    status = cached.status;
    headers = ops.insert cache_status_header status (ops.build cached.headers);
    body = whole cached.body;
  }

  -- The headers that are stored: all but the internal one, with their texts.
  abbrev pub kept_headers : List (Bytes × Bytes) → List (Bytes × Bytes)
  kept_headers [] = []
  kept_headers ((name, value) ∷ headers) =
      let rest = kept_headers headers in
      if bytes_eq name cache_ttl_header
      then rest
      else (name, unwrap_or (ops.to_str value) []) ∷ rest

  abbrev pub cached_of : Response Headers → Bytes → CachedResponse
  cached_of response body = record {
    status = response.status;
    headers = kept_headers (ops.iter response.headers);
    body = body;
  }

  -- Behind a miss, for a handler that asks for caching.
  abbrev pub store : Times → Bytes → ℕ → Response Headers → Body → InMemoryCache → Handled Headers
  store times key ttl response stream cache = record {
    response = response;
    cache = cache;
    ran = true;
  }
  store times key ttl response broken cache = record {
    response = record { status = 500; headers = ops.empty; body = whole [] };
    cache = cache;
    ran = true;
  }
  store times key ttl response (whole body) cache = record {
    response = record response {
      headers =
          ops.insert cache_status_header (codes "MISS")
            (ops.remove cache_ttl_header response.headers);
    };
    cache =
        Cache.set times.set_cleaned_at times.evicted_at times.stored_at key
          (cached_of response body) (nanoseconds ttl) cache;
    ran = true;
  }

  abbrev pub on_miss : Times → Bytes → Response Headers → InMemoryCache → Handled Headers
  on_miss times key response cache = elim (extract_ttl_header response) [
    | none ↦ record { response = response; cache = cache; ran = true }
    | some ttl ↦ store times key ttl response response.body cache
  ]

  abbrev pub on_get : Times → Bytes → Response Headers → InMemoryCache → Handled Headers
  on_get times key response cache =
      let looked = Cache.get times.cleaned_at times.read_at times.removed_at key cache in
      elim looked.0 [
        | some cached ↦ record {
          response = build_response_from_cache cached (codes "HIT");
          cache = looked.1;
          ran = false;
        }
        | none ↦ on_miss times key response looked.1
      ]

  -- `next` is what the rest of the chain answers, if it runs.
  unfoldable pub handle : Times → Request → Response Headers → InMemoryCache → Handled Headers
  unfolding extract_ttl_header build_response_from_cache build_cache_key is_mutation
      build_invalidation_prefixes invalidate_all Cache.get Cache.set bytes_eq
  handle times req next cache =
      if bytes_eq req.method (codes "GET")
      then on_get times (build_cache_key req.path req.query) next cache
      else if is_mutation req.method && is_success next.status
      then record {
        response = next;
        cache = invalidate_all (build_invalidation_prefixes req.path req.matched_pattern) cache;
        ran = true;
      }
      else record { response = next; cache = cache; ran = true }
