-- ===== src/Router.antt =====
-- The router (rapina/src/router/mod.rs): its routes, and the table and the tries that `freeze`
-- makes of them. Schemas (`serde_json::Value`) and handlers (closures) are parameters. An
-- outer `none` is a panic.
pub mod Dispatch
pub mod Laws
pub mod Order
pub mod Correct
pub mod Tests
use rapina.Prelude.{
  ℕ, Bool, true, false, List, [], ◌∷◌, ◌++◌, Option, none, some, if◌then◌else◌, Bytes, slash, codes,
  map, starts_with_byte, sort_by, ◌>>=◌,
}
use rapina.Trie.Node.{Method}
use rapina.RoutePattern.{route_specificity, lex_le, join_group_route_pattern}
use rapina.StaticMap
use rapina.StaticMap.{StaticMap}
use rapina.TrieRouter
use rapina.TrieRouter.{TrieRouter}

pub record ErrorVariant : Type 0 where
  pub status : ℕ
  pub code : Bytes
  pub description : Bytes

pub record HeaderParamInfo : Type 0 where
  pub name : Bytes
  pub required : Bool

pub record RouteConfig (Json : Type 0) : Type 0 where
  pub handler_name : Bytes
  pub response_schema : Option Json
  pub request_schema : Option Json
  pub request_content_type : Option Bytes
  pub request_body_required : Option Bool
  pub error_responses : List ErrorVariant
  pub header_parameters : List HeaderParamInfo
  pub description : Option Bytes

unfoldable pub default_config : {Json : Type 0} → RouteConfig Json
default_config = record {
  handler_name = codes "handler";
  response_schema = none;
  request_schema = none;
  request_content_type = none;
  request_body_required = none;
  error_responses = [];
  header_parameters = [];
  description = none;
}

pub record Route (Json Handler : Type 0) : Type 0 where
  pub pattern : Bytes
  pub handler_name : Bytes
  pub response_schema : Option Json
  pub request_schema : Option Json
  pub request_content_type : Option Bytes
  pub request_body_required : Option Bool
  pub error_responses : List ErrorVariant
  pub header_parameters : List HeaderParamInfo
  pub description : Option Bytes
  pub handler : Handler

pub record Router (Json Handler : Type 0) : Type 0 where
  pub routes : List (Method × Route Json Handler)
  pub static_map : Option StaticMap
  pub trie : Option TrieRouter

-- What the `Handler` trait gives for a handler, with its `call`.
pub record HandlerInfo (Json Handler : Type 0) : Type 0 where
  pub config : RouteConfig Json
  pub call : Handler

module _ {Json Handler : Type 0} where
  unfoldable pub new : Router Json Handler
  new = record { routes = []; static_map = none; trie = none }

  unfoldable pub route_named :
      Method → Bytes → RouteConfig Json → Handler → Router Json Handler → Router Json Handler
  route_named method pattern config handler router =
      let route : Route Json Handler = record {
        pattern = pattern;
        handler_name = config.handler_name;
        response_schema = config.response_schema;
        request_schema = config.request_schema;
        request_content_type = config.request_content_type;
        request_body_required = config.request_body_required;
        error_responses = config.error_responses;
        header_parameters = config.header_parameters;
        description = config.description;
        handler = handler;
      } in
      record router { routes = router.routes ++ (method, route) ∷ [] }

  unfoldable pub route : Method → Bytes → Handler → Router Json Handler → Router Json Handler
  unfolding route_named default_config
  route method pattern handler router = route_named method pattern default_config handler router

  -- The body that `get_named` and the like share, but for the method.
  unfoldable pub method_named :
      Method → Bytes → Bytes → Handler → Router Json Handler → Router Json Handler
  unfolding route_named default_config
  method_named method pattern handler_name handler router =
      route_named method pattern (record default_config { handler_name = handler_name }) handler
        router

  -- The body that `get` and the like share, but for the method.
  unfoldable pub method_of :
      Method → Bytes → HandlerInfo Json Handler → Router Json Handler → Router Json Handler
  unfolding route_named
  method_of method pattern info router = route_named method pattern info.config info.call router

  unfoldable pub get_named : Bytes → Bytes → Handler → Router Json Handler → Router Json Handler
  unfolding method_named
  get_named pattern handler_name handler router =
      method_named (codes "GET") pattern handler_name handler router

  unfoldable pub post_named : Bytes → Bytes → Handler → Router Json Handler → Router Json Handler
  unfolding method_named
  post_named pattern handler_name handler router =
      method_named (codes "POST") pattern handler_name handler router

  unfoldable pub put_named : Bytes → Bytes → Handler → Router Json Handler → Router Json Handler
  unfolding method_named
  put_named pattern handler_name handler router =
      method_named (codes "PUT") pattern handler_name handler router

  unfoldable pub patch_named : Bytes → Bytes → Handler → Router Json Handler → Router Json Handler
  unfolding method_named
  patch_named pattern handler_name handler router =
      method_named (codes "PATCH") pattern handler_name handler router

  unfoldable pub delete_named : Bytes → Bytes → Handler → Router Json Handler → Router Json Handler
  unfolding method_named
  delete_named pattern handler_name handler router =
      method_named (codes "DELETE") pattern handler_name handler router

  unfoldable pub get : Bytes → HandlerInfo Json Handler → Router Json Handler → Router Json Handler
  unfolding method_of
  get pattern info router = method_of (codes "GET") pattern info router

  unfoldable pub post : Bytes → HandlerInfo Json Handler → Router Json Handler → Router Json Handler
  unfolding method_of
  post pattern info router = method_of (codes "POST") pattern info router

  unfoldable pub put : Bytes → HandlerInfo Json Handler → Router Json Handler → Router Json Handler
  unfolding method_of
  put pattern info router = method_of (codes "PUT") pattern info router

  unfoldable pub patch :
      Bytes → HandlerInfo Json Handler → Router Json Handler → Router Json Handler
  unfolding method_of
  patch pattern info router = method_of (codes "PATCH") pattern info router

  unfoldable pub delete :
      Bytes → HandlerInfo Json Handler → Router Json Handler → Router Json Handler
  unfolding method_of
  delete pattern info router = method_of (codes "DELETE") pattern info router

  -- The loop of `group` over the routes of the inner router.
  abbrev pub add_group :
      Bytes
      → List (Method × Route Json Handler)
      → List (Method × Route Json Handler)
      → List (Method × Route Json Handler)
  add_group prefix [] routes = routes
  add_group prefix ((method, route) ∷ more) routes =
      let joined = join_group_route_pattern prefix route.pattern in
      add_group prefix more (routes ++ (method, record route { pattern = joined }) ∷ [])

  unfoldable pub group :
      Bytes → Router Json Handler → Router Json Handler → Option (Router Json Handler)
  group prefix inner router =
      if starts_with_byte slash prefix
      then some (record router { routes = add_group prefix inner.routes router.routes })
      else none

  abbrev pub by_specificity : Method × Route Json Handler → Method × Route Json Handler → Bool
  by_specificity r q = lex_le (route_specificity r.1.pattern) (route_specificity q.1.pattern)

  unfoldable pub sort_routes : Router Json Handler → Router Json Handler
  sort_routes router = record router { routes = sort_by by_specificity router.routes }

  -- What the table and the tries read of the routes.
  abbrev pub patterns : List (Method × Route Json Handler) → List (Method × Bytes)
  patterns [] = []
  patterns ((method, route) ∷ routes) = (method, route.pattern) ∷ patterns routes

  unfoldable pub freeze : Router Json Handler → Option (Router Json Handler)
  unfolding StaticMap.build TrieRouter.build
  freeze router = elim router.static_map [
    | some _ ↦ some router
    | none ↦ do
      tries ← TrieRouter.build (patterns router.routes)
      some (record router {
        static_map = some (StaticMap.build (patterns router.routes));
        trie = some tries;
      })
  ]
