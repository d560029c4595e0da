-- ===== src/Auth/Middleware/Tests.antt =====
-- The auth middleware for a request with a token that decodes.
use rapina.Prelude.{
  ℕ, false, ◌≡◌, ◌≢◌, ◌⊎◌, [], ◌∷◌, Option, some, if◌then◌else◌, Bytes, bytes_eq, codes,
}
use rapina.Error.{Error, Result, ok, err}
use rapina.Auth.{Claims, PublicRoutes, is_public}
use rapina.Auth.Middleware.{
  CurrentUser, DecodeError, invalid_token, Request, runs, refuses, extract_bearer_token, handle,
  Admits, handle_lem,
}

abbrev claims : Claims
claims = record { sub = codes "ann"; exp = 90; iat = 10 }

abbrev key : Bytes → Result Claims DecodeError
key token = if bytes_eq token (codes "t1") then ok claims else err invalid_token

abbrev to_str : Bytes → Option Bytes
to_str v = some v

abbrev request : Request
request = record {
  method = codes "GET";
  path = codes "/orders";
  authorization = some (codes "Bearer t1");
}

abbrev open_routes : PublicRoutes
open_routes = (codes "GET", codes "/health") ∷ []

handle_lem_example :
    ((user : Option CurrentUser) × (handle key to_str {Json = ℕ} open_routes request ≡ runs user)
      × Admits key to_str open_routes request user)
    ⊎ ((e : Error ℕ) × (handle key to_str open_routes request ≡ refuses e)
        × (e.status ≡ 401)
        × (is_public open_routes (codes "GET") (codes "/orders") ≡ false)
        × ((token : Bytes) (c : Claims)
            → extract_bearer_token to_str request ≡ some token
            → key token ≢ ok c))
handle_lem_example = handle_lem key to_str open_routes request
