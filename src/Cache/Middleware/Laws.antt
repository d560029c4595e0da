-- ===== src/Cache/Middleware/Laws.antt =====
-- Hits after misses, and the entries that a mutation drops.
use rapina.Prelude.{
  ℕ, true, false, ◌≡◌, ◌+◌, ◌<◌, refl, sym, ap, ◌∙◌, none, some, Bytes, bytes_eq, bytes_eq_refl,
  codes, ltb, arith,
}
use rapina.Cache
use rapina.Cache.{CachedResponse, InMemoryCache}
use rapina.Cache.Laws.{get-set}
use rapina.Cache.Middleware.Headers.{HeaderLaws, AllTexts, first_value-kept, kept-IsText}
use rapina.Cache.Middleware.{
  cache_ttl_header, HeaderOps, Response, Request, Times, Handled, whole, extract_ttl_header,
  build_cache_key, build_response_from_cache, cached_of, kept_headers, store, on_miss, on_get,
  handle, nanoseconds, cache_status_header,
}

module _ {Headers : Type 0} (ops : HeaderOps Headers) where
  -- What a request finds after a store under its key.
  on_get-set :
      (times : Times) (key : Bytes) (next : Response Headers) (cleaned_at evicted_at now ttl : ℕ)
      (cached : CachedResponse) (cache : InMemoryCache)
      → times.cleaned_at < now + ttl
      → times.read_at < now + ttl
      → ((on_get ops times key next (Cache.set cleaned_at evicted_at now key cached ttl cache)).ran
          ≡ false)
        × ((on_get ops times key next
              (Cache.set cleaned_at evicted_at now key cached ttl cache)).response
            ≡ build_response_from_cache ops cached (codes "HIT"))
  on_get-set times key next cleaned_at evicted_at now ttl cached cache early alive =
      let found =
        get-set cleaned_at evicted_at now ttl times.cleaned_at times.read_at times.removed_at key
          cached cache early in
      let in_time : ltb times.read_at (now + ttl) ≡ true = ground arith in
      let hit : (Cache.get times.cleaned_at times.read_at times.removed_at key
            (Cache.set cleaned_at evicted_at now key cached ttl cache)).0
          ≡ some cached =
        found ∙ rw in_time refl in
      (rw (hit, on_get) refl, rw (hit, on_get) refl)

  miss_stores :
      (times : Times) (key : Bytes) (next : Response Headers) (cache : InMemoryCache) (ttl : ℕ)
      (body : Bytes)
      → (Cache.get times.cleaned_at times.read_at times.removed_at key cache).0 ≡ none
      → extract_ttl_header ops next ≡ some ttl
      → next.body ≡ whole body
      → (on_get ops times key next cache).cache
        ≡ Cache.set times.set_cleaned_at times.evicted_at times.stored_at key
            (cached_of ops next body)
            (nanoseconds ttl)
            (Cache.get times.cleaned_at times.read_at times.removed_at key cache).1
  miss_stores times key next cache ttl body missed asks known =
      rw (missed, on_get) (rw (asks, on_miss) (rw (known, store) refl))

  marked_hit :
      HeaderLaws ops
      → (cached : CachedResponse)
      → ops.get cache_status_header (build_response_from_cache ops cached (codes "HIT")).headers
        ≡ some (codes "HIT")
  unfolding build_response_from_cache
  marked_hit laws cached =
      laws.get_insert cache_status_header cache_status_header (codes "HIT")
        (ops.build cached.headers)
      ∙ rw (bytes_eq_refl cache_status_header) refl

  same_value :
      HeaderLaws ops
      → (next : Response Headers) (body name : Bytes) → AllTexts ops (ops.iter next.headers)
      → bytes_eq name cache_ttl_header ≡ false
      → bytes_eq cache_status_header name ≡ false
      → ops.get name (build_response_from_cache ops (cached_of ops next body) (codes "HIT")).headers
        ≡ ops.get name next.headers
  unfolding build_response_from_cache
  same_value laws next body name texts own_name unmarked =
      let kept = kept_headers ops (ops.iter next.headers) in
      let valid = kept-IsText ops next.headers (ops.iter next.headers) (λ p m. m) texts in
      laws.get_insert name cache_status_header (codes "HIT") (ops.build kept)
      ∙ (rw unmarked (laws.get_build name kept valid)
          ∙ (first_value-kept ops name (ops.iter next.headers) own_name texts
              ∙ sym (laws.get_iter name next.headers)))

  -- A GET that misses, and whose handler answers with a body of known size and a time to live:
  -- until this time is over, a GET for the same path and query that comes next, and whose own
  -- cleanup is before this time too, is answered without the handler, with the status and the body
  -- of the first answer, the mark of a hit, and the same first value of every header whose name is
  -- not the mark's or the internal one's. All values of the first answer's headers are texts.
  pub handle-handle :
      (times later : Times) (req : Request) (next other : Response Headers) (cache : InMemoryCache)
      (ttl : ℕ) (body name : Bytes)
      → HeaderLaws ops
      → AllTexts ops (ops.iter next.headers)
      → bytes_eq name cache_ttl_header ≡ false
      → bytes_eq cache_status_header name ≡ false
      → req.method ≡ codes "GET"
      → (Cache.get times.cleaned_at times.read_at times.removed_at
          (build_cache_key req.path req.query)
          cache).0
        ≡ none
      → extract_ttl_header ops next ≡ some ttl
      → next.body ≡ whole body
      → later.cleaned_at < times.stored_at + nanoseconds ttl
      → later.read_at < times.stored_at + nanoseconds ttl
      → (second : Handled Headers) × (handle ops later req other
            (handle ops times req next cache).cache
          ≡ second)
        × (second.ran ≡ false)
        × (second.response.status ≡ next.status)
        × (second.response.body ≡ whole body)
        × (ops.get cache_status_header second.response.headers ≡ some (codes "HIT"))
        × (ops.get name second.response.headers ≡ ops.get name next.headers)
  unfolding handle build_response_from_cache
  handle-handle times later req next other cache ttl body name laws texts own_name unmarked is_get
        missed asks known early alive =
      let key = build_cache_key req.path req.query in
      let own : bytes_eq req.method (codes "GET") ≡ true =
        rw is_get (bytes_eq_refl (codes "GET")) in
      let read = (Cache.get times.cleaned_at times.read_at times.removed_at key cache).1 in
      let cached = cached_of ops next body in
      let stored = miss_stores times key next cache ttl body missed asks known in
      let first : (handle ops times req next cache).cache
          ≡ Cache.set times.set_cleaned_at times.evicted_at times.stored_at key cached
              (nanoseconds ttl) read =
        rw (own, handle) stored in
      let (ran, response) =
        on_get-set later key other times.set_cleaned_at times.evicted_at times.stored_at
          (nanoseconds ttl) cached read early alive in
      let second = handle ops later req other (handle ops times req next cache).cache in
      let same : second
          ≡ on_get ops later key other (
              Cache.set times.set_cleaned_at times.evicted_at times.stored_at key cached
                (nanoseconds ttl) read) =
        ap (handle ops later req other) first ∙ rw (own, handle) refl in
      let answer : second.response ≡ build_response_from_cache ops cached (codes "HIT") =
        ap (λ s. s.response) same ∙ response in
      (
        second,
        refl,
        ap (λ s. s.ran) same ∙ ran,
        ap (λ r. r.status) answer,
        ap (λ r. r.body) answer,
        ap (λ r. ops.get cache_status_header r.headers) answer ∙ marked_hit laws cached,
        ap (λ r. ops.get name r.headers) answer
            ∙ same_value laws next body name texts own_name unmarked,
      )
