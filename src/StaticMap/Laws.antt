-- ===== src/StaticMap/Laws.antt =====
-- The table against a search of the routes.
use rapina.Prelude.{
  ℕ, suc, ◌&&◌, ◌≡◌, refl, ◌∙◌, List, [], ◌∷◌, Option, none, some, if◌then◌else◌, Bytes, bytes_eq,
  bytes_eq_iff, not, arith,
}
use rapina.Trie.Node.{Method}
use rapina.RoutePattern.{is_dynamic}
use rapina.StaticMap.{StaticMap, insert, build_from, build, lookup}

abbrev pub or_else : Option ℕ → Option ℕ → Option ℕ
or_else (some i) o = some i
or_else none o = o

-- The index of the last route with no parameter that has the method and is the path, counted
-- from `idx`.
abbrev pub last_static : ℕ → List (Method × Bytes) → Method → Bytes → Option ℕ
last_static idx [] method path = none
last_static idx ((m, p) ∷ routes) method path =
    or_else (last_static (suc idx) routes method path)
      (if not (is_dynamic p) && (bytes_eq m method && bytes_eq p path) then some idx else none)

lookup-insert :
    (m p : Bytes) (i : ℕ) (map : StaticMap) (method path : Bytes)
    → lookup (insert m p i map) method path
      ≡ (if bytes_eq m method && bytes_eq p path then some i else lookup map method path)
unfolding lookup insert
lookup-insert m p i [] method path = refl
lookup-insert m p i ((n, q, j) ∷ map) method path = ground (
  arith,
  lookup-insert m p i map method path,
  bytes_eq_iff n m,
  bytes_eq_iff q p,
  bytes_eq_iff n method,
  bytes_eq_iff q path,
  bytes_eq_iff m method,
  bytes_eq_iff p path,
)

or_else_assoc : (a b c : Option ℕ) → or_else (or_else a b) c ≡ or_else a (or_else b c)
or_else_assoc none b c = refl
or_else_assoc (some i) b c = refl

lookup-step :
    (m p : Bytes) (i : ℕ) (map : StaticMap) (method path : Bytes)
    → lookup (if not (is_dynamic p) then insert m p i map else map) method path
      ≡ or_else
          (if not (is_dynamic p) && (bytes_eq m method && bytes_eq p path) then some i else none)
          (lookup map method path)
lookup-step m p i map method path = ground (arith, lookup-insert m p i map method path)

lookup-build_from :
    (idx : ℕ) (routes : List (Method × Bytes)) (map : StaticMap) (method path : Bytes)
    → lookup (build_from idx routes map) method path
      ≡ or_else (last_static idx routes method path) (lookup map method path)
unfolding build_from
lookup-build_from idx [] map method path = refl
lookup-build_from idx ((m, p) ∷ routes) map method path =
    rw
      (
        lookup-build_from (suc idx) routes (if not (is_dynamic p) then insert m p idx map else map)
            method path,
        lookup-step m p idx map method path,
      )
      (rw (or_else_assoc (last_static (suc idx) routes method path)) refl)

or_else-none : (a : Option ℕ) → or_else a none ≡ a
or_else-none none = refl
or_else-none (some i) = refl

-- The table that is built of the routes gives, for a method and a path, the index of the last
-- route with no parameter that has this method and is this path, and no index if there is none.
pub lookup-build :
    (routes : List (Method × Bytes)) (method path : Bytes)
    → lookup (build routes) method path ≡ last_static 0 routes method path
unfolding build
lookup-build routes method path =
    lookup-build_from 0 routes [] method path
    ∙ (unfold lookup in or_else-none (last_static 0 routes method path))
