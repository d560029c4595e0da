-- ===== src/Trie/Pattern.antt =====
-- Route patterns as alternating static and parameter segments (`split_pattern`).

pub mod Laws
use rapina.Prelude.{
  ℕ, zero, suc, Bool, true, false, ◌||◌, List, [], ◌∷◌, ◌++◌, Option, none, some, ◌==◌,
  if◌then◌else◌, Bytes, slash, colon, length, take, drop, is_empty, starts_with_byte, ◌>>=◌,
}
use rapina.Trie.Node.{until}

pub data Segment : Type 0 where
  static : Bytes → Segment
  param : Bytes → Segment

-- The segment pushed in front of those of the rest; the code pushes at the end of a vector.
abbrev then_segments : Segment → Option (List Segment) → Option (List Segment)
then_segments seg rest = do some (seg ∷ (← rest))

-- The `while` loop, over the bytes from `i` on. `none` is the failed assertion that a parameter
-- spans its whole segment, or no fuel: each round takes at least one byte.
split_from : ℕ → Bytes → Option (List Segment)
split_from fuel [] = some []
split_from zero (_ ∷ _) = none
split_from (suc fuel) (b ∷ s) = elim (b == colon) [
  | true ↦
      let end = until slash s in
      let rest = drop end s in
      elim (is_empty rest || starts_with_byte slash rest) [
        | true ↦ then_segments (param (take end s)) (split_from fuel rest)
        | false ↦ none
      ]
  | false ↦
      let end = until colon (b ∷ s) in
      then_segments (static (take end (b ∷ s))) (split_from fuel (drop end (b ∷ s)))
]

unfoldable pub split_pattern : Bytes → Option (List Segment)
unfolding split_from
split_pattern pattern = split_from (length pattern) pattern
