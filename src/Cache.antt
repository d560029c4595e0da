-- ===== src/Cache.antt =====
-- The in-memory response cache (`InMemoryCache` in rapina/src/cache.rs). The `DashMap` is an
-- association list with one entry for a key, in the order that the map iterates in. A reading of the
-- clock (`Instant::now()`) is an argument, one for each reading in the code; times count in
-- nanoseconds and do not overflow.

pub mod Laws
pub mod Middleware
use rapina.Prelude.{
  ℕ, Bool, true, false, ◌&&◌, List, [], ◌∷◌, ◌++◌, Option, none, some, if◌then◌else◌, not, Bytes,
  bytes_eq, ltb, leb, ◌==◌, length, starts_with, ◌+◌, ◌^◌, ◌%◌,
}

abbrev pub cleanup_interval : ℕ
cleanup_interval = 1000

pub record CachedResponse : Type 0 where
  pub status : ℕ
  pub headers : List (Bytes × Bytes)
  pub body : Bytes

pub record CacheEntry : Type 0 where
  pub response : CachedResponse
  pub expires_at : ℕ
  pub created_at : ℕ

abbrev pub Entries : Type 0
Entries = List (Bytes × CacheEntry)

pub record InMemoryCache : Type 0 where
  pub entries : Entries
  pub max_entries : ℕ
  pub op_count : ℕ

unfoldable pub new : ℕ → InMemoryCache
new max_entries = record { entries = []; max_entries = max_entries; op_count = 0 }

unfoldable pub retain : (Bytes → CacheEntry → Bool) → Entries → Entries
retain keep [] = []
retain keep ((k, e) ∷ entries) =
    let rest = retain keep entries in if keep k e then (k, e) ∷ rest else rest

unfoldable pub find : Bytes → Entries → Option CacheEntry
find key [] = none
find key ((k, e) ∷ entries) = if bytes_eq k key then some e else find key entries

unfoldable pub put : Bytes → CacheEntry → Entries → Entries
put key entry [] = (key, entry) ∷ []
put key entry ((k, e) ∷ entries) =
    if bytes_eq k key then (k, entry) ∷ entries else (k, e) ∷ put key entry entries

unfoldable pub remove : Bytes → Entries → Entries
remove key [] = []
remove key ((k, e) ∷ entries) = if bytes_eq k key then entries else (k, e) ∷ remove key entries

-- `min_by_key` on the creation times: the first of the least.
unfoldable pub oldest : Bytes × CacheEntry → Entries → Bytes × CacheEntry
oldest best [] = best
oldest best (x ∷ entries) =
    oldest (if ltb x.1.created_at best.1.created_at then x else best) entries

unfoldable pub cleanup_expired : ℕ → InMemoryCache → InMemoryCache
unfolding retain
cleanup_expired now cache = record cache {
  entries = retain (λ _ entry. ltb now entry.expires_at) cache.entries;
}

-- The counter is an `AtomicU64`, whose `fetch_add` wraps around.
unfoldable pub maybe_cleanup : ℕ → InMemoryCache → InMemoryCache
unfolding cleanup_expired
maybe_cleanup now cache =
    let count = cache.op_count in
    let counted = record cache { op_count = (count + 1) % 2 ^ 64 } in
    if ltb 0 count && count % cleanup_interval == 0 then cleanup_expired now counted else counted

-- The removal of the oldest entry.
unfoldable pub evict_oldest : Entries → Entries
unfolding oldest remove
evict_oldest [] = []
evict_oldest (x ∷ entries) = remove (oldest x entries).0 (x ∷ entries)

unfoldable pub evict_if_full : ℕ → InMemoryCache → InMemoryCache
unfolding evict_oldest
evict_if_full now cache =
    let cleaned = cleanup_expired now cache in
    if ltb (length cache.entries) cache.max_entries
    then cache
    else if ltb (length cleaned.entries) cleaned.max_entries
    then cleaned
    else record cleaned { entries = evict_oldest cleaned.entries }

-- The response that a reading of the clock leaves alive.
unfoldable pub alive : ℕ → Option CacheEntry → Option CachedResponse
alive now none = none
alive now (some entry) = if ltb now entry.expires_at then some entry.response else none

-- `remove_if`, on the entry that is expired.
unfoldable pub remove_expired : ℕ → Bytes → Entries → Entries
unfolding remove find
remove_expired now key entries = elim (find key entries) [
  | none ↦ entries
  | some entry ↦ if leb entry.expires_at now then remove key entries else entries
]

unfoldable pub get :
    (cleaned_at read_at removed_at : ℕ)
    → Bytes
    → InMemoryCache
    → Option CachedResponse × InMemoryCache
unfolding maybe_cleanup find alive remove_expired
get cleaned_at read_at removed_at key cache =
    let cache = maybe_cleanup cleaned_at cache in
    let result = alive read_at (find key cache.entries) in
    (
      result,
      elim result [
        | some _ ↦ cache
        | none ↦ record cache { entries = remove_expired removed_at key cache.entries }
      ],
    )

unfoldable pub set :
    (cleaned_at evicted_at now : ℕ)
    → Bytes
    → CachedResponse
    → (ttl : ℕ) → InMemoryCache
    → InMemoryCache
unfolding maybe_cleanup put
set cleaned_at evicted_at now key response ttl cache =
    let cache = evict_if_full evicted_at (maybe_cleanup cleaned_at cache) in
    let entry : CacheEntry = record {
      response = response;
      expires_at = now + ttl;
      created_at = now;
    } in
    record cache { entries = put key entry cache.entries }

unfoldable pub invalidate_prefix : Bytes → InMemoryCache → InMemoryCache
unfolding retain
invalidate_prefix prefix cache = record cache {
  entries = retain (λ key _. not (starts_with prefix key)) cache.entries;
}
