-- ===== src/Error.antt =====
-- The error value of handlers and extractors (rapina/src/error.rs). JSON values are a parameter. Text
-- is ASCII where its case is changed.

use rapina.Prelude.{
  ℕ, Bool, ◌&&◌, [], ◌∷◌, ◌++◌, Option, none, some, if◌then◌else◌, Bytes, bytes_eq, codes, slash,
  split, join, leb, ◌==◌, ◌+◌, ◌-◌, map, unwrap_or,
}
use rapina.RoutePattern.{trim_end_matches}

-- `Result`.
pub data Result (A E : Type 0) : Type 0 where
  ok : A → Result A E
  err : E → Result A E

pub record Error (Json : Type 0) : Type 0 where
  pub status : ℕ
  pub code : Bytes
  pub message : Bytes
  pub details : Option Json
  pub trace_id : Option Bytes
  pub instance_uri : Option Bytes

pub record ProblemDetails (Json : Type 0) : Type 0 where
  pub type_uri : Bytes
  pub title : Bytes
  pub status : ℕ
  pub detail : Bytes
  pub instance_uri : Option Bytes
  pub trace_id : Bytes
  pub extensions : Option Json

pub record ErrorResponse (Json : Type 0) : Type 0 where
  pub code : Bytes
  pub message : Bytes
  pub details : Option Json
  pub trace_id : Bytes

pub record ErrorConfig : Type 0 where
  pub use_rfc7807 : Bool
  pub base_uri : Bytes

-- The body of an error's response, before it is printed as JSON.
pub data ErrorBody (Json : Type 0) : Type 0 where
  problem : ProblemDetails Json → ErrorBody Json
  standard : ErrorResponse Json → ErrorBody Json

module _ {Json : Type 0} where
  unfoldable pub new : ℕ → Bytes → Bytes → Error Json
  new status code message = record {
    status = status;
    code = code;
    message = message;
    details = none;
    trace_id = none;
    instance_uri = none;
  }

  -- `Display`.
  unfoldable pub display : Error Json → Bytes
  display e = e.code ++ (codes ": " ++ e.message)

  unfoldable pub with_details : Json → Error Json → Error Json
  with_details details e = record e { details = some details }

  unfoldable pub with_trace_id : Bytes → Error Json → Error Json
  with_trace_id trace_id e = record e { trace_id = some trace_id }

  unfoldable pub with_instance : Bytes → Error Json → Error Json
  with_instance uri e = record e { instance_uri = some uri }

  abbrev pub bad_request : Bytes → Error Json
  bad_request message = new 400 (codes "BAD_REQUEST") message

  abbrev pub unauthorized : Bytes → Error Json
  unauthorized message = new 401 (codes "UNAUTHORIZED") message

  abbrev pub forbidden : Bytes → Error Json
  forbidden message = new 403 (codes "FORBIDDEN") message

  abbrev pub not_found : Bytes → Error Json
  not_found message = new 404 (codes "NOT_FOUND") message

  abbrev pub method_not_allowed : Bytes → Error Json
  method_not_allowed message = new 405 (codes "METHOD_NOT_ALLOWED") message

  abbrev pub conflict : Bytes → Error Json
  conflict message = new 409 (codes "CONFLICT") message

  abbrev pub validation : Bytes → Error Json
  validation message = new 422 (codes "VALIDATION_ERROR") message

  abbrev pub rate_limited : Bytes → Error Json
  rate_limited message = new 429 (codes "RATE_LIMITED") message

  abbrev pub request_timeout : Bytes → Error Json
  request_timeout message = new 408 (codes "REQUEST_TIMEOUT") message

  abbrev pub internal : Bytes → Error Json
  internal message = new 500 (codes "INTERNAL_ERROR") message

  abbrev pub service_unavailable : Bytes → Error Json
  service_unavailable message = new 503 (codes "SERVICE_UNAVAILABLE") message

abbrev pub underscore : ℕ
underscore = b'_'

abbrev pub lower : ℕ → ℕ
lower c = if leb b'A' c && leb c b'Z' then c + 32 else c

abbrev pub upper : ℕ → ℕ
upper c = if leb b'a' c && leb c b'z' then c - 32 else c

abbrev pub dashed : ℕ → ℕ
dashed c = if c == underscore then b'-' else c

unfoldable pub get_error_type_uri : Bytes → Bytes → Bytes
unfolding trim_end_matches
get_error_type_uri base_uri code =
    if bytes_eq base_uri (codes "about:blank")
    then base_uri
    else trim_end_matches slash base_uri ++ slash ∷ map dashed (map lower code)

abbrev pub capitalized : Bytes → Bytes
capitalized [] = []
capitalized (f ∷ rest) = upper f ∷ map lower rest

unfoldable pub get_error_title : Bytes → Bytes
unfolding split join
get_error_title code = join (b' ' ∷ []) (map capitalized (split underscore code))

module _ {Json : Type 0} where
  unfoldable pub to_rfc7807_response : Bytes → Bytes → Error Json → ProblemDetails Json
  unfolding get_error_type_uri get_error_title
  to_rfc7807_response trace_id base_uri e = record {
    type_uri = get_error_type_uri base_uri e.code;
    title = get_error_title e.code;
    status = e.status;
    detail = e.message;
    instance_uri = e.instance_uri;
    trace_id = trace_id;
    extensions = e.details;
  }

  -- The status and the body of `into_response`, where `fresh` is the random trace id that it takes
  -- when the error has none. The body prints as JSON.
  unfoldable pub into_response : (fresh : Bytes) → ErrorConfig → Error Json → ℕ × ErrorBody Json
  unfolding to_rfc7807_response
  into_response fresh config e =
      let trace_id = unwrap_or e.trace_id fresh in
      if config.use_rfc7807
      then (e.status, problem (to_rfc7807_response trace_id config.base_uri e))
      else (
        e.status,
        standard (record {
          code = e.code;
          message = e.message;
          details = e.details;
          trace_id = trace_id;
        }),
      )
