-- ===== src/Lib.antt =====
-- Rapina's routing core and the pure parts around it.
--
-- Routing. A pattern such as `/users/:id` belongs to a route with an HTTP method. RoutePattern and
-- Router model rapina/src/router/mod.rs: `route_named` and its variants register routes, `group`
-- joins patterns, `sort_routes` orders them, and `freeze` builds the lookup structures, from which
-- `resolve` and `handle` (Router/Dispatch) decide on a route. StaticMap models
-- rapina/src/router/static_map.rs, the table of the routes with no parameter. Trie and TrieRouter
-- model rapina/src/router/trie.rs: an arena of nodes that link by index, `insert` (Trie/Insert),
-- `split_pattern` (Trie/Pattern), `compute_priorities` and `reorder_children` (Trie/Reorder) and the
-- lookup with backtracking (Trie/Lookup). PathParams models `PathParams` and `extract_path_params` of
-- rapina/src/extract/path.rs.
--
-- How the trie is proved. Each node has a label, the spelling of the way to it (Trie/Spelling);
-- Trie/Invariant says how labels and links agree. Trie/Insert/... shows that an insertion keeps the
-- invariant and all terminal nodes, Trie/Walk and Trie/Climb go between terminal nodes and walks from
-- the root, Trie/Lookup/... compares the lookup with the walks, and Trie/Correct draws the sum.
--
-- TrieRouter/... goes on from there to the tries that `build` makes: Trie/Distinct shows that the
-- bytes of a node's children are distinct, Trie/Reorder/... that counting the priorities and
-- reordering the children keep the trie, TrieRouter/Slots and Members which routes a method's trie
-- holds. Router/Correct says what a frozen router decides.
--
-- Jobs. Jobs/Model has the rows of `rapina_jobs` (rapina/src/jobs/model.rs), Jobs/Backend the
-- statements of rapina/src/jobs/backend.rs as functions on the table, Jobs/Retry the policy and the
-- record of an outcome (retry.rs), Jobs/Config the settings and Jobs/Worker a worker's round
-- (worker.rs). Jobs/Lifecycle and Jobs/WellFormed state the moves of a row and the invariant, and
-- Jobs/Steps takes any sequence of statements, of any number of workers, as a step relation;
-- Jobs/Rounds shows that a worker's round is such a sequence. Jobs/Batch, Reaper and Budget are
-- about claims, expired leases and retries.
--
-- Relay. Relay/Channel models channels and presence (rapina/src/relay/channel.rs) and the order of
-- the channels (rapina/src/app.rs), Relay/Hub the messages of a connection (relay/hub.rs).
--
-- Around it. Cache models the in-memory backend of rapina/src/cache.rs and Cache/Middleware the
-- middleware over it, Error the error value of
-- rapina/src/error.rs, Pagination the offset and cursor pages of rapina/src/pagination.rs, Cors
-- rapina/src/middleware/cors.rs, Auth the claims and public routes of
-- rapina/src/auth/mod.rs, Auth/Middleware rapina/src/auth/middleware.rs, and Compression
-- rapina/src/middleware/compression.rs.
--
-- Conventions. Text is the list of its bytes. A panic is `none`. Recursion without an evident measure
-- takes fuel: a lookup visits at most two nodes for each byte of the path, `insert_static` and
-- `split_pattern` take a byte in each round, and the depth-first search of the priorities is bounded by
-- the size of the arena. SQL is read as it is written, on a table that is a list of rows; rows that
-- are equal in the order of a query stay in the order of the table. Time, random ids, header maps, JSON values, handlers and the database are
-- parameters.
--
-- Not modelled: the server and its I/O, the database beyond the job statements, OpenAPI and
-- introspection, GraphQL, metrics, the macros and the command line tool. Floating-point arithmetic
-- and the databases' rounding of times are parameters.
pub mod Prelude
pub mod PathParams
pub mod Trie
pub mod RoutePattern
pub mod StaticMap
pub mod TrieRouter
pub mod Router
pub mod Cache
pub mod Error
pub mod Jobs
pub mod Relay
pub mod Compression
pub mod Pagination
pub mod Cors
pub mod Auth
pub mod Tests
