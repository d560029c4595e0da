-- ===== src/Compression.antt =====
-- The compression middleware (rapina/src/middleware/compression.rs). The encoders and the header
-- maps are libraries' and parameters; a level is a number.
pub mod Laws
pub mod Tests
use rapina.Prelude.{
  ℕ, Bool, true, false, ◌&&◌, ◌||◌, not, List, [], ◌∷◌, Option, none, some, if◌then◌else◌, Bytes,
  codes, starts_with, is_some, length, ltb, leb, unwrap_or, ◌>>=◌,
}
use rapina.Cache.Middleware.{HeaderOps, Response, Body, whole, broken, stream}

pub data Algorithm : Type 0 where
  gzip : Algorithm
  deflate : Algorithm

-- `str::contains`.
abbrev pub has_text : Bytes → Bytes → Bool
has_text needle [] = starts_with needle []
has_text needle (c ∷ s) = let later = has_text needle s in starts_with needle (c ∷ s) || later

unfoldable pub from_accept_encoding : Bytes → Option Algorithm
from_accept_encoding header =
    if has_text (codes "gzip") header
    then some gzip
    else if has_text (codes "deflate") header
    then some deflate
    else none

unfoldable pub content_encoding : Algorithm → Bytes
content_encoding gzip = codes "gzip"
content_encoding deflate = codes "deflate"

pub record CompressionConfig : Type 0 where
  pub min_size : ℕ
  pub level : ℕ

unfoldable pub new : ℕ → ℕ → CompressionConfig
new min_size level = record { min_size = min_size; level = if ltb level 9 then level else 9 }

unfoldable pub default : CompressionConfig
default = record { min_size = 1024; level = 6 }

-- The response as the rest of the chain gives it, or with a compressed body, of known size or not.
pub data Sent (Headers : Type 0) : Type 0 where
  unchanged : Response Headers → Sent Headers
  compressed : Algorithm → ℕ → Headers → Bytes → Sent Headers
  streamed : Algorithm → ℕ → Headers → Sent Headers

module _ {Headers : Type 0} (ops : HeaderOps Headers) where
  abbrev pub text_of : Bytes → Headers → Option Bytes
  text_of name headers = do v ← ops.get name headers; ops.to_str v

  unfoldable pub is_compressible_content_type : Option Bytes → Bool
  is_compressible_content_type none = true
  is_compressible_content_type (some v) =
      let ct = unwrap_or (ops.to_str v) [] in
      starts_with (codes "text/") ct
      || (starts_with (codes "application/json") ct
          || (starts_with (codes "application/xml") ct
              || (starts_with (codes "application/javascript") ct
                  || (has_text (codes "+json") ct || has_text (codes "+xml") ct))))

  unfoldable pub is_already_encoded : Response Headers → Bool
  is_already_encoded response = is_some (ops.get (codes "content-encoding") response.headers)

  unfoldable pub is_event_stream : Response Headers → Bool
  is_event_stream response = elim (text_of (codes "content-type") response.headers) [
    | none ↦ false
    | some s ↦ starts_with (codes "text/event-stream") s
  ]

  abbrev pub may_compress : Response Headers → Bool
  may_compress response =
      not (is_already_encoded response)
      && is_compressible_content_type (ops.get (codes "content-type") response.headers)

  -- The headers of a response whose body is compressed.
  abbrev pub marked : Algorithm → Headers → Headers
  marked alg headers = ops.insert (codes "content-encoding") (content_encoding alg) headers

  abbrev pub vary : Headers → Headers
  vary headers = ops.insert (codes "vary") (codes "Accept-Encoding") headers

  abbrev pub sent_headers : Algorithm → Headers → Headers
  sent_headers alg headers = vary (ops.remove (codes "content-length") (marked alg headers))

  module _ (compress : Algorithm → ℕ → Bytes → Option Bytes) (config : CompressionConfig) where
    -- A body of known size; the encoder may fail.
    abbrev pub compress_body : Algorithm → Response Headers → Bytes → Sent Headers
    compress_body alg response body =
        if ltb (length body) config.min_size
        then unchanged response
        else elim (compress alg config.level body) [
          | none ↦ unchanged response
          | some data' ↦
              if leb (length body) (length data')
              then unchanged response
              else compressed alg config.level (sent_headers alg response.headers) data'
        ]

    abbrev pub compress_response : Algorithm → Response Headers → Body → Sent Headers
    compress_response alg response stream =
        streamed alg config.level (sent_headers alg response.headers)
    compress_response alg response broken = unchanged (record response { body = whole [] })
    compress_response alg response (whole body) = compress_body alg response body

    -- `accept` is the value of the request's `Accept-Encoding`.
    unfoldable pub handle : Option Bytes → Response Headers → Sent Headers
    unfolding from_accept_encoding is_event_stream is_already_encoded is_compressible_content_type
        content_encoding
    handle accept response =
        let algorithm = from_accept_encoding (unwrap_or (accept >>= λ v. ops.to_str v) []) in
        if is_event_stream response then unchanged response else elim algorithm [
          | none ↦ unchanged response
          | some alg ↦
              if may_compress response
              then compress_response alg response response.body
              else unchanged response
        ]
