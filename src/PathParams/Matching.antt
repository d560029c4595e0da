-- ===== src/PathParams/Matching.antt =====
-- The segment-wise matcher against the relation that it decides.
use rapina.Prelude.{
  suc, ◌≡◌, refl, ap, ◌↔◌, Bool-cases, Option-cases, inl, inr, List, [], ◌∷◌, none, some,
  if◌then◌else◌, ◌==◌, Bytes, bytes_eq, bytes_eq_iff, bytes_eq_refl, strip_prefix,
  strip_prefix_sound, strip_prefix_append, arith, length, split, slash, colon,
}
use rapina.PathParams.{PathParams, insert, extract_loop, extract_path_params}

-- Parts of a pattern fit the parts of a path, and capture what the parameters stand for.
pub data Captures : List Bytes → List Bytes → PathParams → Type 0 where
  done : Captures [] [] []
  literal :
      {part : Bytes} {pattern parts : List Bytes} {caps : PathParams}
      → strip_prefix (colon ∷ []) part ≡ none
      → Captures pattern parts caps
      → Captures (part ∷ pattern) (part ∷ parts) caps
  param :
      {name part : Bytes} {pattern parts : List Bytes} {caps : PathParams}
      → Captures pattern parts caps
      → Captures ((colon ∷ name) ∷ pattern) (part ∷ parts) ((name, part) ∷ caps)

-- The captures inserted in order, a later one over an earlier one of its name.
abbrev pub insert_all : PathParams → PathParams → PathParams
insert_all [] ps = ps
insert_all ((k, v) ∷ caps) ps = insert_all caps (insert k v ps).0

extract_loop_sound :
    (pattern parts : List Bytes) (ps r : PathParams)
    → length pattern ≡ length parts
    → extract_loop ps pattern parts ≡ some r
    → (caps : PathParams) × Captures pattern parts caps × (r ≡ insert_all caps ps)
unfolding extract_loop
extract_loop_sound [] [] ps r l h = ([], done, ground arith)
extract_loop_sound [] (q ∷ qs) ps r l h = absurd (omega arith)
extract_loop_sound (p ∷ pats) [] ps r l h = absurd (omega arith)
extract_loop_sound (p ∷ pats) (q ∷ qs) ps r l h =
    elim (Option-cases (strip_prefix (colon ∷ []) p)) [
      | inl e ↦ elim (Bool-cases (bytes_eq p q)) [
        | inl same ↦
            let h' : extract_loop ps pats qs ≡ some r = ground arith in
            let (caps, c, eq) = extract_loop_sound pats qs ps r (omega arith) h' in
            let s : p ≡ q = (bytes_eq_iff p q).0 same in (caps, rw (← s) (literal e c), eq)
        | inr other ↦ cc
      ]
      | inr (name, e) ↦
          let h' : extract_loop (insert name q ps).0 pats qs ≡ some r = ground arith in
          let (caps, c, eq) = extract_loop_sound pats qs (insert name q ps).0 r (omega arith) h' in
          let s : p ≡ colon ∷ name = strip_prefix_sound (colon ∷ []) p name e in
          ((name, q) ∷ caps, rw s (param c), eq)
    ]

extract_loop_complete :
    {pattern parts : List Bytes} {caps : PathParams}
    → Captures pattern parts caps
    → (ps : PathParams)
    → (length pattern ≡ length parts) × (extract_loop ps pattern parts ≡ some (insert_all caps ps))
unfolding extract_loop
extract_loop_complete done ps = (refl, refl)
extract_loop_complete (literal {part} e c) ps =
    let (l, h) = extract_loop_complete c ps in
    (ap suc l, rw (e, extract_loop) (rw (bytes_eq_refl part) h))
extract_loop_complete (param {name} {part} c) ps =
    let (l, h) = extract_loop_complete c (insert name part ps).0 in
    (ap suc l, rw (strip_prefix_append (colon ∷ []) name, extract_loop) h)

-- `extract_path_params` succeeds exactly when the path's segments fit the pattern's, one to one,
-- and then returns the captures in order, a later one over an earlier one of the same name.
pub extract_path_params_iff :
    (pattern path : Bytes) (r : PathParams)
    → (extract_path_params pattern path ≡ some r) ↔ (
        (caps : PathParams) × Captures (split slash pattern) (split slash path) caps
        × (r ≡ insert_all caps []))
unfolding extract_path_params
extract_path_params_iff pattern path r = (to, from)
  where
    to :
        (if length (split slash pattern) == length (split slash path)
            then extract_loop [] (split slash pattern) (split slash path)
            else none)
          ≡ some r
        → (caps : PathParams) × Captures (split slash pattern) (split slash path) caps
          × (r ≡ insert_all caps [])
    to h =
        extract_loop_sound (split slash pattern) (split slash path) [] r (ground arith)
          (ground arith)

    from :
        ((caps : PathParams) × Captures (split slash pattern) (split slash path) caps
          × (r ≡ insert_all caps []))
        → (if length (split slash pattern) == length (split slash path)
            then extract_loop [] (split slash pattern) (split slash path)
            else none)
          ≡ some r
    from (caps, c, e) = let (l, h) = extract_loop_complete c [] in ground arith
