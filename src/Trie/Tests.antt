-- ===== src/Trie/Tests.antt =====
-- Runs of the trie on concrete routes, as in the tests of rapina/src/router/trie.rs.
use mathlib.Core.List.{Memᴰ}
use rapina.Prelude.{
  IsAscii, is_char_boundary, arith, strip_prefix, ℕ, ◌≡◌, refl, List, [], ◌∷◌, some, none, Bytes,
  codes, ◌⊎◌, unwrap_or,
}
use rapina.PathParams.{PathParams}
use rapina.Trie.Node.{new_trie, new_node, Arena, until, position, common_prefix_len}
use rapina.Trie.Pattern.{Segment, static, param, split_pattern}
use rapina.Trie.Pattern.Laws.{render, split_pattern_total}
use rapina.Trie.Insert.Whole.{Alternates}
use rapina.Trie.Insert.{
  insert, split_node, set_value, insert_segments, insert_loop, insert_rest, insert_static,
  add_child, insert_param, split_if_needed,
}
use rapina.Trie.Lookup.{lookup, lookup_recursive, lookup_node, lookup_rest}
use rapina.Trie.Spelling.{Fits}
use rapina.Trie.Correct.{
  inserts, DistinctNames, AllDistinct, PatternFits, lookup_sound, lookup_complete, lookup-total,
}

engine : Unit {0}
unfolding inserts insert split_pattern lookup lookup_recursive lookup_node lookup_rest split_node
    set_value insert_segments insert_loop insert_rest insert_static add_child insert_param
    split_if_needed new_trie new_node until position common_prefix_len strip_prefix
engine = tt

abbrev routes : List (Bytes × ℕ)
routes = (codes "/users/:id", 0) ∷ (codes "/users/me/:tab", 1) ∷ []

abbrev trie : Arena
trie = unwrap_or (inserts routes new_trie) []

built : inserts routes new_trie ≡ some trie
unfolding engine
built = refl

routes_distinct : AllDistinct routes
unfolding engine
routes_distinct = (first, (second, tt))
  where
    first : DistinctNames (codes "/users/:id")
    first segs e =
        let same : static (codes "/users/") ∷ param (codes "id") ∷ [] ≡ segs = cc in
        rw (← same) (tt, tt)

    second : DistinctNames (codes "/users/me/:tab")
    second segs e =
        let same : static (codes "/users/me/") ∷ param (codes "tab") ∷ [] ≡ segs = cc in
        rw (← same) (tt, tt)

me_fits : PatternFits (codes "/users/:id") (codes "/users/me") ((codes "id", codes "me") ∷ [])
unfolding engine
me_fits = record {
  segments = static (codes "/users/") ∷ param (codes "id") ∷ [];
  parsed = refl;
  fits = Fits.literal (
      Fits.literal (
        Fits.literal (
          Fits.literal (
            Fits.literal (
              Fits.literal (
                Fits.literal
                  (Fits.capture refl (ground arith, (ground arith, tt)) tt Fits.done)))))));
}

found_me : lookup trie (codes "/users/me") [] ≡ some (some 0, (codes "id", codes "me") ∷ [])
unfolding engine
found_me = refl

me-IsAscii : IsAscii (codes "/users/me")
me-IsAscii = ground arith

-- Two letters that share their first byte: the node above them ends inside a character, and a
-- path that goes through it panics.
abbrev accents : List (Bytes × ℕ)
accents = (b'/' ∷ 195 ∷ 169 ∷ codes "/:i", 0) ∷ (b'/' ∷ 195 ∷ 168 ∷ codes "/:i", 1) ∷ []

abbrev accents_trie : Arena
accents_trie = unwrap_or (inserts accents new_trie) []

accents_panic : lookup accents_trie (b'/' ∷ 195 ∷ 169 ∷ codes "/1") [] ≡ none
unfolding engine is_char_boundary
accents_panic = refl

split_pattern_total_example :
    (segs : List Segment) × (split_pattern (codes "/users/:id") ≡ some segs)
    × (render segs ≡ codes "/users/:id")
    × Alternates segs
split_pattern_total_example = split_pattern_total (codes "/users/:id")

lookup_sound_example :
    (pattern : Bytes) × Memᴰ (pattern, 0) routes
    × PatternFits pattern (codes "/users/me") ((codes "id", codes "me") ∷ [])
lookup_sound_example =
    lookup_sound routes trie (codes "/users/me") 0 ((codes "id", codes "me") ∷ []) routes_distinct
      built found_me

lookup_complete_example :
    (v : ℕ) × (caps : PathParams) × (lookup trie (codes "/users/me") [] ≡ some (some v, caps))
lookup_complete_example =
    lookup_complete routes trie (codes "/users/:id") (codes "/users/me") 0
      ((codes "id", codes "me") ∷ []) me-IsAscii routes_distinct built (Memᴰ.head refl) me_fits

lookup-total_example :
    ((lookup trie (codes "/users/me") [] ≡ none) × ¬ IsAscii (codes "/users/me"))
    ⊎ ((lookup trie (codes "/users/me") [] ≡ some (none, []))
        ⊎ ((v : ℕ) × (caps : PathParams) × (lookup trie (codes "/users/me") []
              ≡ some (some v, caps))))
lookup-total_example = lookup-total routes trie (codes "/users/me") routes_distinct built
