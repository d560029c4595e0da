-- ===== src/PathParams.antt =====
-- Path parameters and the segment-wise matcher (rapina/src/extract/path.rs).
-- `SmallVec<[(Cow<str>, String); 4]>` is the list of its entries; `swap_remove` is the vector
-- method of that name. The serde deserialiser over the parameters is not modelled.
pub mod Laws
pub mod Matching
use rapina.Prelude.{
  ℕ, zero, suc, Bool, true, false, List, [], ◌∷◌, ◌++◌, map, Option, none, some, ◌==◌,
  if◌then◌else◌, Bytes, bytes_eq, strip_prefix, split, slash, colon, length, is_empty,
}

abbrev pub PathParams : Type 0
PathParams = List (Bytes × Bytes)

abbrev pub keys : PathParams → List Bytes
keys [] = []
keys ((k, _) ∷ ps) = k ∷ keys ps

unfoldable pub get : Bytes → PathParams → Option Bytes
get key [] = none
get key ((k, v) ∷ ps) = if bytes_eq k key then some v else get key ps

abbrev with_entry : Bytes × Bytes → PathParams × Option Bytes → PathParams × Option Bytes
with_entry e (ps, old) = (e ∷ ps, old)

-- The new parameters and the value that was replaced.
unfoldable pub insert : Bytes → Bytes → PathParams → PathParams × Option Bytes
insert key value [] = ((key, value) ∷ [], none)
insert key value ((k, v) ∷ ps) =
    if bytes_eq k key then ((k, value) ∷ ps, some v) else with_entry (k, v) (insert key value ps)

-- `push` does not look for the key.
unfoldable pub push : Bytes → Bytes → PathParams → PathParams
push key value ps = ps ++ (key, value) ∷ []

-- `iter().position(..)` by key.
position_of : Bytes → PathParams → Option ℕ
position_of key [] = none
position_of key ((k, _) ∷ ps) =
    if bytes_eq k key
    then some 0
    else elim (position_of key ps) [ none ↦ none | some i ↦ some (suc i) ]

last_to_front : PathParams → PathParams
last_to_front [] = []
last_to_front (e ∷ []) = e ∷ []
last_to_front (e ∷ f ∷ ps) = elim (last_to_front (f ∷ ps)) [ [] ↦ e ∷ [] | l ∷ rest ↦ l ∷ e ∷ rest ]

-- The last entry takes the place of the one at the position.
swap_remove : ℕ → PathParams → PathParams
unfolding last_to_front
swap_remove i [] = []
swap_remove zero (_ ∷ ps) = last_to_front ps
swap_remove (suc i) (e ∷ ps) = e ∷ swap_remove i ps

value_at : ℕ → PathParams → Option Bytes
value_at i [] = none
value_at zero ((_, v) ∷ _) = some v
value_at (suc i) (_ ∷ ps) = value_at i ps

unfoldable pub remove : Bytes → PathParams → PathParams × Option Bytes
unfolding position_of swap_remove value_at
remove key ps = elim (position_of key ps) [
  | none ↦ (ps, none)
  | some i ↦ (swap_remove i ps, value_at i ps)
]

unfoldable pub len : PathParams → ℕ
len ps = length ps

unfoldable pub clear : PathParams → PathParams
clear ps = []

-- The loop of `extract_path_params` over the zipped parts.
unfoldable pub extract_loop : PathParams → List Bytes → List Bytes → Option PathParams
extract_loop params (pattern_part ∷ pattern_parts) (path_part ∷ path_parts) =
    elim (strip_prefix (colon ∷ []) pattern_part) [
      | some name ↦ extract_loop (insert name path_part params).0 pattern_parts path_parts
      | none ↦ elim (bytes_eq pattern_part path_part) [
        | true ↦ extract_loop params pattern_parts path_parts
        | false ↦ none
      ]
    ]
extract_loop params _ _ = some params

unfoldable pub extract_path_params : Bytes → Bytes → Option PathParams
unfolding extract_loop
extract_path_params pattern path =
    let pattern_parts = split slash pattern in
    let path_parts = split slash path in
    if length pattern_parts == length path_parts
    then extract_loop [] pattern_parts path_parts
    else none
