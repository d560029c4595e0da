-- ===== src/RoutePattern/Laws.antt =====
-- Laws of trimming and of joined group patterns.
use rapina.Prelude.{
  is_empty, if◌then◌else◌, ℕ, zero, suc, sym, ap, ◌∙◌, Bool, ◌==◌, append-nil, append_assoc, true,
  false, [], ◌∷◌, ◌++◌, Bytes, slash, arith, ◌≡◌, refl, ◌≢◌, starts_with_byte,
}
use rapina.RoutePattern.{
  trim_start_matches, trim_end_matches, keep_before, join_group_route_pattern,
}

-- Neither end of the text is the byte.
abbrev pub NoStart : ℕ → Bytes → Type 0
NoStart b s = starts_with_byte b s ≡ false

pub trim_start_matches-NoStart : (b : ℕ) (s : Bytes) → NoStart b (trim_start_matches b s)
unfolding trim_start_matches
trim_start_matches-NoStart b [] = refl
trim_start_matches-NoStart b (c ∷ s) = ground (arith, trim_start_matches-NoStart b s)

pub trim_start_matches_id : (b : ℕ) (s : Bytes) → NoStart b s → trim_start_matches b s ≡ s
unfolding trim_start_matches
trim_start_matches_id b [] h = refl
trim_start_matches_id b (c ∷ s) h = ground arith

trim_end-keep :
    (b c : ℕ) (s : Bytes)
    → trim_end_matches b s ≡ s
    → trim_end_matches b (keep_before b c s) ≡ keep_before b c s
unfolding keep_before trim_end_matches
trim_end-keep b c [] h = ground arith
trim_end-keep b c (d ∷ s) h = rw h

pub trim_end_matches_idem :
    (b : ℕ) (s : Bytes) → trim_end_matches b (trim_end_matches b s) ≡ trim_end_matches b s
unfolding trim_end_matches
trim_end_matches_idem b [] = refl
trim_end_matches_idem b (c ∷ s) =
    trim_end-keep b c (trim_end_matches b s) (trim_end_matches_idem b s)

-- More of the byte at the end changes nothing.
trim_end_matches-append :
    (b : ℕ) (s : Bytes) → trim_end_matches b (s ++ b ∷ []) ≡ trim_end_matches b s
unfolding trim_end_matches keep_before
trim_end_matches-append b [] = ground arith
trim_end_matches-append b (c ∷ s) = rw (trim_end_matches-append b s)

trim_end-starts :
    (c : ℕ) (s : Bytes)
    → trim_end_matches slash s ≢ []
    → starts_with_byte c s ≡ true
    → starts_with_byte c (trim_end_matches slash s) ≡ true
unfolding trim_end_matches keep_before
trim_end-starts c [] h k = k
trim_end-starts c (d ∷ s) h k = ground (arith)

abbrev ends_with_byte : ℕ → Bytes → Bool
ends_with_byte b [] = false
ends_with_byte b (c ∷ []) = c == b
ends_with_byte b (c ∷ d ∷ s) = ends_with_byte b (d ∷ s)

abbrev pub NoEnd : ℕ → Bytes → Type 0
NoEnd b s = ends_with_byte b s ≡ false

trim_end_matches_id : (b : ℕ) (s : Bytes) → NoEnd b s → trim_end_matches b s ≡ s
unfolding trim_end_matches keep_before
trim_end_matches_id b [] h = refl
trim_end_matches_id b (c ∷ []) h = rw h refl
trim_end_matches_id b (c ∷ d ∷ s) h = rw (trim_end_matches_id b (d ∷ s) h) refl

-- So many slashes.
abbrev pub slashes : ℕ → Bytes
slashes zero = []
slashes (suc n) = slash ∷ slashes n

trim_end-slashes :
    (n : ℕ) (s : Bytes) → trim_end_matches slash (s ++ slashes n) ≡ trim_end_matches slash s
trim_end-slashes zero s = ap (trim_end_matches slash) (append-nil s)
trim_end-slashes (suc n) s =
    ap (trim_end_matches slash) (sym (append_assoc s (slash ∷ []) (slashes n)))
    ∙ (trim_end-slashes n (s ++ slash ∷ []) ∙ trim_end_matches-append slash s)

trim_start-slashes :
    (n : ℕ) (s : Bytes) → trim_start_matches slash (slashes n ++ s) ≡ trim_start_matches slash s
unfolding trim_start_matches
trim_start-slashes zero s = refl
trim_start-slashes (suc n) s = trim_start-slashes n s

-- A prefix and a route's path, without slashes where they meet, and the pattern they make: they are
-- joined by one slash; a prefix without a path stays as it is; and a path without a prefix gets a
-- slash in front.
pub data Joins : Bytes → Bytes → Bytes → Type 0 where
  rooted : {path : Bytes} → Joins [] path (slash ∷ path)
  alone : {c : ℕ} {prefix : Bytes} → Joins (c ∷ prefix) [] (c ∷ prefix)
  joined :
      {c d : ℕ} {prefix path : Bytes}
      → Joins (c ∷ prefix) (d ∷ path) ((c ∷ prefix) ++ slash ∷ d ∷ path)

-- However many slashes stand at the end of the prefix and however many at the start of the route's
-- path, they are joined by one: what stands before and behind those slashes is kept; a prefix of
-- slashes only gives a slash and the path, and a path of slashes only gives the prefix.
pub join_group_lem :
    (before behind : ℕ) (prefix path : Bytes)
    → NoEnd slash prefix
    → NoStart slash path
    → Joins prefix path
        (join_group_route_pattern (prefix ++ slashes before) (slashes behind ++ path))
unfolding join_group_route_pattern
join_group_lem before behind prefix path h k =
    rw
      (
        trim_end-slashes before prefix,
        trim_end_matches_id slash prefix h,
        trim_start-slashes behind path,
        trim_start_matches_id slash path k,
      )
      (joins prefix path)
  where
    joins :
        (p r : Bytes)
        → Joins p r (if is_empty p then slash ∷ r else if is_empty r then p else p ++ slash ∷ r)
    joins [] r = rooted
    joins (c ∷ p) [] = alone
    joins (c ∷ p) (d ∷ r) = joined

-- A group whose prefix starts with a slash gives patterns that start with a slash.
pub join_group_starts :
    (prefix route : Bytes)
    → starts_with_byte slash prefix ≡ true
    → starts_with_byte slash (join_group_route_pattern prefix route) ≡ true
unfolding join_group_route_pattern
join_group_starts prefix route h = ground (arith, trim_end-starts slash prefix)
