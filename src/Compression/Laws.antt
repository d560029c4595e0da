-- ===== src/Compression/Laws.antt =====
-- When a response is compressed.
use rapina.Prelude.{
  ◌∷◌, ap, ◌∙◌, none, ◌++◌, strip_prefix, strip_prefix_sound, codes, ℕ, true, false, ◌≡◌, ◌≤◌, ◌<◌,
  refl, sym, inl, inr, Option, some, Bytes, Bool-cases, Option-cases, length, ltb, leb, unwrap_or,
  ◌>>=◌, arith, [],
}
use rapina.Cache.Middleware.{HeaderOps, Response, Body, whole, broken, stream}
use rapina.Compression.{
  Algorithm, gzip, deflate, has_text, content_encoding, from_accept_encoding, CompressionConfig,
  compressed, is_event_stream, is_already_encoded, is_compressible_content_type, may_compress,
  sent_headers, compress_body, compress_response, handle,
}

-- The text has the other one in it.
abbrev pub IsWithin : Bytes → Bytes → Type 0
IsWithin needle s = (front : Bytes) × (behind : Bytes) × (s ≡ front ++ (needle ++ behind))

has_text-IsWithin : (needle s : Bytes) → has_text needle s ≡ true → IsWithin needle s
has_text-IsWithin needle [] h = elim (Option-cases (strip_prefix needle [])) [
  | inr (rest, e) ↦ ([], rest, strip_prefix_sound needle [] rest e)
  | inl e ↦ cc (rw e at h)
]
has_text-IsWithin needle (c ∷ s) h = elim (Option-cases (strip_prefix needle (c ∷ s))) [
  | inr (rest, e) ↦ ([], rest, strip_prefix_sound needle (c ∷ s) rest e)
  | inl e ↦
      let (front, behind, f) = has_text-IsWithin needle s (rw e at h) in
      (c ∷ front, behind, ap (λ t. c ∷ t) f)
]

from_accept_encoding-IsWithin :
    (alg : Algorithm) (header : Bytes)
    → from_accept_encoding header ≡ some alg
    → IsWithin (content_encoding alg) header
unfolding from_accept_encoding content_encoding
from_accept_encoding-IsWithin alg header h = elim (Bool-cases (has_text (codes "gzip") header)) [
  | inl e ↦
      let same : gzip ≡ alg = cc (rw e at h) in
      rw (← same) (has_text-IsWithin (codes "gzip") header e)
  | inr e ↦ elim (Bool-cases (has_text (codes "deflate") header)) [
    | inl f ↦
        let same : deflate ≡ alg = cc (rw (e, f) at h) in
        rw (← same) (has_text-IsWithin (codes "deflate") header f)
    | inr f ↦ cc (rw (e, f) at h)
  ]
]

nothing_accepted : from_accept_encoding [] ≡ none
unfolding from_accept_encoding strip_prefix
nothing_accepted = refl

-- A header that leads to an encoding can be read, and has the encoding's name in it.
accepts_lem :
    (alg : Algorithm) (text : Option Bytes)
    → from_accept_encoding (unwrap_or text []) ≡ some alg
    → (header : Bytes) × (text ≡ some header) × IsWithin (content_encoding alg) header
accepts_lem alg none h = cc (sym nothing_accepted ∙ h)
accepts_lem alg (some header) h = (header, refl, from_accept_encoding-IsWithin alg header h)

module _ {Headers : Type 0} (ops : HeaderOps Headers)
    (compress : Algorithm → ℕ → Bytes → Option Bytes) (config : CompressionConfig) where
  -- What is known of a response that is sent with a compressed body of known size.
  pub record IsWorth (accept : Option Bytes) (response : Response Headers) (alg : Algorithm)
      (headers : Headers) (data' : Bytes) : Type 0 where
    pub body : Bytes
    pub known : response.body ≡ whole body
    pub encoded : compress alg config.level body ≡ some data'
    pub smaller : length data' < length body
    pub large : config.min_size ≤ length body
    -- The name of the encoding stands somewhere in the header, whatever else the header says.
    pub header : Bytes
    pub read : (accept >>= λ v. ops.to_str v) ≡ some header
    pub named : IsWithin (content_encoding alg) header
    pub no_events : is_event_stream ops response ≡ false
    pub unencoded : is_already_encoded ops response ≡ false
    pub compressible :
        is_compressible_content_type ops (ops.get (codes "content-type") response.headers) ≡ true
    pub sent : headers ≡ sent_headers ops alg response.headers

  body_lem :
      (alg alg' : Algorithm) (response : Response Headers) (body : Bytes) (level : ℕ)
      (headers : Headers) (data' : Bytes)
      → compress_body ops compress config alg response body ≡ compressed alg' level headers data'
      → (alg ≡ alg')
        × (compress alg config.level body ≡ some data')
        × (length data' < length body)
        × (config.min_size ≤ length body)
        × (headers ≡ sent_headers ops alg response.headers)
  body_lem alg alg' response body level headers data' h =
      elim (Bool-cases (ltb (length body) config.min_size)) [
        | inl e ↦ cc (rw e at h)
        | inr e ↦ elim (Option-cases (compress alg config.level body)) [
          | inl f ↦ cc (rw (e, f) at h)
          | inr (d, f) ↦ elim (Bool-cases (leb (length body) (length d))) [
            | inl g ↦ cc (rw (e, f, g) at h)
            | inr g ↦
                let same_alg : alg ≡ alg' = cc (rw (e, f, g) at h) in
                let same : d ≡ data' = cc (rw (e, f, g) at h) in
                let same_headers : sent_headers ops alg response.headers ≡ headers =
                  cc (rw (e, f, g) at h) in
                let less : length d < length body = ground arith in
                (same_alg, rw same at f, rw same at less, ground arith, sym same_headers)
          ]
        ]
      ]

  -- A response is sent with a compressed body of known size only when the name of the encoding stands
  -- somewhere in the request's Accept-Encoding, the body has at least the smallest size, its compressed form is smaller, the response
  -- is not an event stream, it is not encoded already and its content type may be compressed; the
  -- data is what the encoder gives for the whole body, and the headers are marked with the encoding.
  pub handle-compressed :
      (accept : Option Bytes) (response : Response Headers) (alg : Algorithm) (level : ℕ)
      (headers : Headers) (data' : Bytes)
      → handle ops compress config accept response ≡ compressed alg level headers data'
      → IsWorth accept response alg headers data'
  unfolding handle
  handle-compressed accept response alg level headers data' h =
      elim (Bool-cases (is_event_stream ops response)) [
        | inl e ↦ cc (rw (e, handle) at h)
        | inr e ↦
            elim (Option-cases
              (from_accept_encoding (unwrap_or (accept >>= λ v. ops.to_str v) []))) [
                | inl f ↦ cc (rw (e, f, handle) at h)
                | inr (alg', f) ↦ elim (Bool-cases (may_compress ops response)) [
                  | inr g ↦ cc (rw (e, f, g, handle) at h)
                  | inl g ↦ sized alg' e f g response.body refl (rw (e, f, g, handle) at h)
                ]
              ]
      ]
    where
      sized :
          (alg' : Algorithm)
          → is_event_stream ops response ≡ false
          → from_accept_encoding (unwrap_or (accept >>= λ v. ops.to_str v) []) ≡ some alg'
          → may_compress ops response ≡ true
          → (b : Body) → response.body ≡ b
          → compress_response ops compress config alg' response b
            ≡ compressed alg level headers data'
          → IsWorth accept response alg headers data'
      sized alg' e f g stream known k = cc
      sized alg' e f g broken known k = cc
      sized alg' e f g (whole body) known k =
          let (same, encoded, smaller, large, sent) =
            body_lem alg' alg response body level headers data' k in
          let (header, read, named) =
            accepts_lem alg (accept >>= λ v. ops.to_str v) (rw same at f) in
          record {
            body = body;
            known = known;
            encoded = rw same at encoded;
            smaller = smaller;
            large = large;
            header = header;
            read = read;
            named = named;
            no_events = e;
            unencoded = ground arith;
            compressible = ground arith;
            sent = rw same at sent;
          }
