-- ===== src/Cache/Laws.antt =====
-- The cache against a map from keys to live responses, and its bound.
use mathlib.Core.List.{Memᴰ}
use rapina.Prelude.{
  ℕ, Bool, true, false, ◌≡◌, ◌≤◌, ◌<◌, refl, [], ◌∷◌, none, some, if◌then◌else◌, not, Bytes,
  bytes_eq, bytes_eq_iff, bytes_eq_refl, ltb, length, starts_with, arith, Option-cases, Bool-cases,
  inl, inr, ◌+◌, ◌≢◌,
}
use rapina.Cache.{
  CachedResponse, CacheEntry, Entries, InMemoryCache, retain, find, put, remove, oldest,
  cleanup_expired, maybe_cleanup, evict_oldest, evict_if_full, alive, get, set, invalidate_prefix,
}

find-put :
    (key k : Bytes) (entry : CacheEntry) (entries : Entries)
    → find k (put key entry entries) ≡ (if bytes_eq key k then some entry else find k entries)
unfolding find put
find-put key k entry [] = refl
find-put key k entry ((j, e) ∷ entries) =
    ground (
      arith,
      find-put key k entry entries,
      bytes_eq_iff j key,
      bytes_eq_iff key k,
      bytes_eq_iff j k,
    )

-- The cache keeps at most so many entries.
abbrev pub IsBounded : InMemoryCache → Type 0
IsBounded cache = length cache.entries ≤ cache.max_entries

length-put :
    (key : Bytes) (entry : CacheEntry) (entries : Entries)
    → length (put key entry entries) ≤ length entries + 1
unfolding put
length-put key entry [] = omega arith
length-put key entry ((j, e) ∷ entries) = ground (arith, length-put key entry entries)

length-retain :
    (keep : Bytes → CacheEntry → Bool) (entries : Entries)
    → length (retain keep entries) ≤ length entries
unfolding retain
length-retain keep [] = omega arith
length-retain keep ((j, e) ∷ entries) = ground (arith, length-retain keep entries)

length-remove : (key : Bytes) (entries : Entries) → length (remove key entries) ≤ length entries
unfolding remove
length-remove key [] = omega arith
length-remove key ((j, e) ∷ entries) = ground (arith, length-remove key entries)

-- A key that is there is removed.
length-remove-found :
    (key : Bytes) (entries : Entries)
    → find key entries ≢ none
    → length (remove key entries) + 1 ≡ length entries
unfolding remove find
length-remove-found key [] h = absurd (h refl)
length-remove-found key ((j, e) ∷ entries) h = elim (Bool-cases (bytes_eq j key)) [
  | inl t ↦ rw t (omega arith)
  | inr t ↦ rw t (let r = length-remove-found key entries (rw t at h) in omega arith)
]

oldest-found :
    (best : Bytes × CacheEntry) (entries all : Entries)
    → find best.0 all ≢ none
    → ((x : Bytes × CacheEntry) → find x.0 entries ≢ none → find x.0 all ≢ none)
    → find (oldest best entries).0 all ≢ none
unfolding oldest find
oldest-found best [] all h k = h
oldest-found best ((j, e) ∷ entries) all h k =
    oldest-found (if ltb e.created_at best.1.created_at then (j, e) else best) entries all
      (elim (ltb e.created_at best.1.created_at)
        as (λ b. find (if b then (j, e) else best).0 all ≢ none) [
          | true ↦ k (j, e) (λ q. cc (rw (bytes_eq_refl j) at q))
          | false ↦ h
        ])
      (λ x f. k x (λ q. f (skip x.0 q)))
  where
    skip :
        (key : Bytes)
        → (if bytes_eq j key then some e else find key entries) ≡ none
        → find key entries ≡ none
    skip key q = ground arith

length-evict_oldest :
    (entries : Entries) → 1 ≤ length entries → length (evict_oldest entries) + 1 ≡ length entries
unfolding evict_oldest find
length-evict_oldest [] h = absurd (omega arith)
length-evict_oldest (x ∷ entries) h =
    length-remove-found (oldest x entries).0 (x ∷ entries)
      (oldest-found x entries (x ∷ entries) first (λ y f q. f (rest y q)))
  where
    first : find x.0 (x ∷ entries) ≢ none
    first q = cc (rw (bytes_eq_refl x.0) at q)

    rest : (y : Bytes × CacheEntry) → find y.0 (x ∷ entries) ≡ none → find y.0 entries ≡ none
    rest y q = ground arith

max-maybe_cleanup :
    (now : ℕ) (cache : InMemoryCache) → (maybe_cleanup now cache).max_entries ≡ cache.max_entries
unfolding maybe_cleanup cleanup_expired
max-maybe_cleanup now cache = ground arith

length-maybe_cleanup :
    (now : ℕ) (cache : InMemoryCache)
    → length (maybe_cleanup now cache).entries ≤ length cache.entries
unfolding maybe_cleanup cleanup_expired
length-maybe_cleanup now cache =
    ground (arith, length-retain (λ _ entry. ltb now entry.expires_at) cache.entries)

max-evict_if_full :
    (now : ℕ) (cache : InMemoryCache) → (evict_if_full now cache).max_entries ≡ cache.max_entries
unfolding evict_if_full cleanup_expired
max-evict_if_full now cache = ground arith

-- There is room for an entry after an eviction.
length-evict_if_full :
    (now : ℕ) (cache : InMemoryCache)
    → 1 ≤ cache.max_entries
    → IsBounded cache
    → length (evict_if_full now cache).entries < cache.max_entries
unfolding evict_if_full cleanup_expired
length-evict_if_full now cache h b = ground (
  arith,
  length-retain (λ _ entry. ltb now entry.expires_at) cache.entries,
  length-evict_oldest (retain (λ _ entry. ltb now entry.expires_at) cache.entries),
)

-- A cache that may hold an entry and keeps to its bound still does so after `set`.
pub set-IsBounded :
    (cleaned_at evicted_at now ttl : ℕ) (key : Bytes) (response : CachedResponse)
    (cache : InMemoryCache)
    → 1 ≤ cache.max_entries
    → IsBounded cache
    → IsBounded (set cleaned_at evicted_at now key response ttl cache)
unfolding set
set-IsBounded cleaned_at evicted_at now ttl key response cache h b =
    let c = maybe_cleanup cleaned_at cache in
    let same = max-maybe_cleanup cleaned_at cache in
    let less = length-maybe_cleanup cleaned_at cache in
    let room = length-evict_if_full evicted_at c (omega arith) (omega arith) in
    let same' = max-evict_if_full evicted_at c in
    let entry : CacheEntry = record {
      response = response;
      expires_at = now + ttl;
      created_at = now;
    } in
    let one = length-put key entry (evict_if_full evicted_at c).entries in omega arith

find-retain :
    (keep : Bytes → CacheEntry → Bool) (key : Bytes) (entry : CacheEntry) (entries : Entries)
    → find key entries ≡ some entry
    → keep key entry ≡ true
    → find key (retain keep entries) ≡ some entry
unfolding find retain
find-retain keep key entry [] f k = cc
find-retain keep key entry ((j, e) ∷ entries) f k = elim (Bool-cases (bytes_eq j key)) [
  | inl t ↦
      let same_key : j ≡ key = (bytes_eq_iff j key).0 t in
      let same : e ≡ entry = cc (rw t at f) in rw (same_key, same, k) (rw (bytes_eq_refl key) refl)
  | inr t ↦
      let r = find-retain keep key entry entries (rw t at f) k in
      elim (keep j e)
        as (λ b.
          find key (if b then (j, e) ∷ retain keep entries else retain keep entries) ≡ some entry) [
            | true ↦ rw t r
            | false ↦ r
          ]
]

find-maybe_cleanup :
    (now : ℕ) (key : Bytes) (entry : CacheEntry) (cache : InMemoryCache)
    → find key cache.entries ≡ some entry
    → ltb now entry.expires_at ≡ true
    → find key (maybe_cleanup now cache).entries ≡ some entry
unfolding maybe_cleanup cleanup_expired
find-maybe_cleanup now key entry cache f k =
    ground (arith, find-retain (λ _ entry. ltb now entry.expires_at) key entry cache.entries f k)

-- A read of a key right after a store under it, whose own cleanup is before the entry expires:
-- the stored response if the entry has not expired when it is read, and nothing if it has.
pub get-set :
    (cleaned_at evicted_at now ttl cleaned_at' read_at removed_at : ℕ) (key : Bytes)
    (response : CachedResponse) (cache : InMemoryCache)
    → cleaned_at' < now + ttl
    → (get cleaned_at' read_at removed_at key
        (set cleaned_at evicted_at now key response ttl cache)).0
      ≡ (if ltb read_at (now + ttl) then some response else none)
unfolding get alive
get-set cleaned_at evicted_at now ttl cleaned_at' read_at removed_at key response cache h =
    let entry : CacheEntry = record {
      response = response;
      expires_at = now + ttl;
      created_at = now;
    } in
    let stored = set cleaned_at evicted_at now key response ttl cache in
    let found : find key stored.entries ≡ some entry =
      unfold set in rw (find-put key key entry, bytes_eq_refl key) refl in
    rw (find-maybe_cleanup cleaned_at' key entry stored found (ground arith)) refl

find-Mem :
    (key : Bytes) (entries : Entries) (entry : CacheEntry)
    → find key entries ≡ some entry
    → Memᴰ (key, entry) entries
unfolding find
find-Mem key [] entry h = cc
find-Mem key ((j, e) ∷ entries) entry h = elim (Bool-cases (bytes_eq j key)) [
  | inl t ↦
      let same_key : j ≡ key = (bytes_eq_iff j key).0 t in
      let same : e ≡ entry = cc (rw t at h) in rw (same_key, same) (Memᴰ.head refl)
  | inr t ↦ Memᴰ.tail (find-Mem key entries entry (rw t at h))
]

Mem-under :
    (x y : Bytes × CacheEntry) (l entries : Entries)
    → (Memᴰ x l → Memᴰ x entries)
    → Memᴰ x (y ∷ l)
    → Memᴰ x (y ∷ entries)
Mem-under x y l entries f (Memᴰ.head q) = Memᴰ.head q
Mem-under x y l entries f (Memᴰ.tail q) = Memᴰ.tail (f q)

Mem-retain :
    (keep : Bytes → CacheEntry → Bool) (entries : Entries) (x : Bytes × CacheEntry)
    → Memᴰ x (retain keep entries)
    → Memᴰ x entries
unfolding retain
Mem-retain keep [] x m = m
Mem-retain keep ((j, e) ∷ entries) x m = elim (Bool-cases (keep j e)) [
  | inl t ↦
      Mem-under x (j, e) (retain keep entries) entries (λ k. Mem-retain keep entries x k)
        (rw t at m)
  | inr t ↦ Memᴰ.tail (Mem-retain keep entries x (rw t at m))
]

Mem-maybe_cleanup :
    (now : ℕ) (cache : InMemoryCache) (x : Bytes × CacheEntry)
    → Memᴰ x (maybe_cleanup now cache).entries
    → Memᴰ x cache.entries
unfolding maybe_cleanup cleanup_expired
Mem-maybe_cleanup now cache x m =
    ground (arith, Mem-retain (λ _ entry. ltb now entry.expires_at) cache.entries x, m)

-- What a read answers with was stored under the key, and had not expired when it was read.
pub get-alive :
    (cleaned_at read_at removed_at : ℕ) (key : Bytes) (cache : InMemoryCache)
    (response : CachedResponse)
    → (get cleaned_at read_at removed_at key cache).0 ≡ some response
    → (entry : CacheEntry) × Memᴰ (key, entry) cache.entries
      × (entry.response ≡ response)
      × (read_at < entry.expires_at)
unfolding get alive
get-alive cleaned_at read_at removed_at key cache response h =
    let entries = (maybe_cleanup cleaned_at cache).entries in
    elim (Option-cases (find key entries)) [
      | inl e ↦ cc (rw e at h)
      | inr (entry, e) ↦
          let live : alive read_at (some entry) ≡ some response = rw e at h in
          (
            entry,
            Mem-maybe_cleanup cleaned_at cache (key, entry) (find-Mem key entries entry e),
            ground arith,
            ground arith,
          )
    ]

starts_kept :
    (prefix : Bytes) (key : Bytes) (entries : Entries)
    → find key (retain (λ key _. not (starts_with prefix key)) entries)
      ≡ (if starts_with prefix key then none else find key entries)
unfolding find retain
starts_kept prefix key [] = ground arith
starts_kept prefix key ((j, e) ∷ entries) =
    ground (arith, starts_kept prefix key entries, bytes_eq_iff j key)

-- An invalidation removes the entries whose keys start with the prefix, and no others.
pub find-invalidate_prefix :
    (prefix key : Bytes) (cache : InMemoryCache)
    → find key (invalidate_prefix prefix cache).entries
      ≡ (if starts_with prefix key then none else find key cache.entries)
unfolding invalidate_prefix
find-invalidate_prefix prefix key cache = starts_kept prefix key cache.entries
