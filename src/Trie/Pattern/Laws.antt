-- ===== src/Trie/Pattern/Laws.antt =====
-- Every pattern is split: the assertion never fails, the segments alternate, and they spell the
-- pattern.
use rapina.Prelude.{
  ℕ, zero, suc, ◌≤◌, ◌≡◌, refl, sym, ap, ◌∙◌, inl, inr, true, false, ◌||◌, List, [], ◌∷◌, ◌++◌,
  Option, some, Bytes, slash, colon, length, take, drop, is_empty, starts_with_byte, ◌==◌, ==_iff,
  Bool-cases, arith, length-drop, take-append-drop,
}
use rapina.Trie.Node.{until}
use rapina.Trie.Pattern.{Segment, static, param, split_from, split_pattern}
use rapina.Trie.Insert.Whole.{StartsParam, StartsStatic, Alternates}

-- The text of segments.
abbrev pub render : List Segment → Bytes
render [] = []
render (static s ∷ segs) = s ++ render segs
render (param name ∷ segs) = colon ∷ (name ++ render segs)

-- What stands behind the bytes up to a byte is nothing, or starts with it.
abbrev AtByte : ℕ → Bytes → Type 0
AtByte b s = (is_empty s || starts_with_byte b s) ≡ true

drop-until : (b : ℕ) (s : Bytes) → AtByte b (drop (until b s) s)
unfolding until
drop-until b [] = refl
drop-until b (c ∷ s) = elim (Bool-cases (c == b)) [
  | inl e ↦ rw (e, until) (rw e)
  | inr e ↦ rw (e, until) (drop-until b s)
]

record Split (call : Option (List Segment)) (pattern : Bytes) : Type 0 where
  segments : List Segment
  runs : call ≡ some segments
  spells : render segments ≡ pattern
  alternates : Alternates segments
  param_first : AtByte colon pattern → StartsParam segments
  static_first : starts_with_byte colon pattern ≡ false → StartsStatic segments

-- What follows a parameter's segment starts no parameter.
at_slash : (s : Bytes) → AtByte slash s → starts_with_byte colon s ≡ false
at_slash [] h = refl
at_slash (c ∷ s) h = ground arith

runs_param :
    (fuel b : ℕ) (s : Bytes) (segs : List Segment)
    → (b == colon) ≡ true
    → split_from fuel (drop (until slash s) s) ≡ some segs
    → split_from (suc fuel) (b ∷ s) ≡ some (param (take (until slash s) s) ∷ segs)
unfolding split_from
runs_param fuel b s segs e r = ground (arith, drop-until slash s)

runs_static :
    (fuel b : ℕ) (s : Bytes) (segs : List Segment)
    → (b == colon) ≡ false
    → split_from fuel (drop (until colon s) s) ≡ some segs
    → split_from (suc fuel) (b ∷ s) ≡ some (static (b ∷ take (until colon s) s) ∷ segs)
unfolding split_from until
runs_static fuel b s segs e r = ground arith

split_from_lem :
    (fuel : ℕ) (pattern : Bytes) → length pattern ≤ fuel → Split (split_from fuel pattern) pattern
split_from_lem fuel [] h = record {
  segments = [];
  runs = unfold split_from in refl;
  spells = refl;
  alternates = tt;
  param_first = λ e. tt;
  static_first = λ e. tt;
}
split_from_lem zero (b ∷ s) h = absurd (omega arith)
split_from_lem (suc fuel) (b ∷ s) h = elim (Bool-cases (b == colon)) [
  | inl e ↦
      let rest = drop (until slash s) s in
      let r = split_from_lem fuel rest (omega (arith, length-drop (until slash s) s)) in
      let is_colon : b ≡ colon = (==_iff b colon).0 e in
      record {
        segments = param (take (until slash s) s) ∷ r.segments;
        runs = runs_param fuel b s r.segments e r.runs;
        spells = rw (is_colon, r.spells) (ap (λ t. colon ∷ t) (take-append-drop (until slash s) s));
        alternates = (r.static_first (at_slash rest (drop-until slash s)), r.alternates);
        param_first = λ f. tt;
        static_first = λ f. cc (sym e ∙ f);
      }
  | inr e ↦
      let rest = drop (until colon s) s in
      let r = split_from_lem fuel rest (omega (arith, length-drop (until colon s) s)) in
      record {
        segments = static (b ∷ take (until colon s) s) ∷ r.segments;
        runs = runs_static fuel b s r.segments e r.runs;
        spells = rw r.spells (ap (λ t. b ∷ t) (take-append-drop (until colon s) s));
        alternates = ((λ f. cc), r.param_first (drop-until colon s), r.alternates);
        param_first = λ f. cc (sym e ∙ f);
        static_first = λ f. tt;
      }
]

-- Every pattern is split, with no panic, into alternating segments whose text is the pattern.
pub split_pattern_total :
    (pattern : Bytes)
    → (segs : List Segment) × (split_pattern pattern ≡ some segs)
      × (render segs ≡ pattern)
      × Alternates segs
unfolding split_pattern
split_pattern_total pattern =
    let r = split_from_lem (length pattern) pattern (omega arith) in
    (r.segments, r.runs, r.spells, r.alternates)
