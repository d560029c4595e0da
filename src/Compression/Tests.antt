-- ===== src/Compression/Tests.antt =====
-- A response that is compressed, with an encoder that keeps two bytes.
use rapina.Prelude.{
  ℕ, ◌≡◌, refl, List, [], ◌∷◌, Option, none, some, if◌then◌else◌, Bytes, bytes_eq, codes, take,
  strip_prefix,
}
use rapina.Cache.Middleware.{HeaderOps, Response, whole}
use rapina.Compression.{
  Algorithm, gzip, CompressionConfig, compressed, handle, from_accept_encoding, is_event_stream,
  is_already_encoded, is_compressible_content_type, content_encoding,
}
use rapina.Compression.Laws.{IsWorth, handle-compressed}

abbrev Headers : Type 0
Headers = List (Bytes × Bytes)

abbrev value_of : Bytes → Headers → Option Bytes
value_of name [] = none
value_of name ((n, v) ∷ headers) = if bytes_eq n name then some v else value_of name headers

abbrev without : Bytes → Headers → Headers
without name [] = []
without name ((n, v) ∷ headers) =
    let rest = without name headers in if bytes_eq n name then rest else (n, v) ∷ rest

abbrev ops : HeaderOps Headers
ops = record {
  get = value_of;
  insert = λ n v headers. (n, v) ∷ without n headers;
  remove = without;
  iter = λ headers. headers;
  build = λ headers. headers;
  to_str = λ v. some v;
  empty = [];
}

abbrev encode : Algorithm → ℕ → Bytes → Option Bytes
encode alg level body = some (take 2 body)

abbrev small : CompressionConfig
small = record { min_size = 4; level = 6 }

abbrev page : Response Headers
page = record {
  status = 200;
  headers = (codes "content-type", codes "text/html") ∷ (codes "content-length", codes "5") ∷ [];
  body = whole (codes "aaaaa");
}

abbrev page_headers : Headers
page_headers =
    (codes "vary", codes "Accept-Encoding")
    ∷ (codes "content-encoding", codes "gzip")
    ∷ (codes "content-type", codes "text/html")
    ∷ []

is_compressed :
    handle ops encode small (some (codes "gzip, br")) page
    ≡ compressed gzip 6 page_headers (codes "aa")
unfolding handle from_accept_encoding is_event_stream is_already_encoded
    is_compressible_content_type content_encoding bytes_eq strip_prefix
is_compressed = refl

handle-compressed_example :
    IsWorth ops encode small (some (codes "gzip, br")) page gzip page_headers (codes "aa")
handle-compressed_example =
    handle-compressed ops encode small (some (codes "gzip, br")) page gzip 6 page_headers
      (codes "aa") is_compressed
