-- ===== src/Trie/Spelling.antt =====
-- What a route pattern spells, byte by byte and parameter by parameter, and the paths that fit it.
-- This is the specification of the trie: it does not mention nodes.
use rapina.Prelude.{
  Lacks, slash, Bool-cases, inl, inr, ◌==◌, arith, ℕ, ◌≡◌, refl, sym, true, false, ap, List, [],
  ◌∷◌, ◌++◌, Bytes,
}
use rapina.PathParams.{PathParams, keys}
use rapina.Trie.Pattern.{Segment}
use rapina.Trie.Node.{until}
use rapina.Trie.Lookup.{captured, left_over}

pub data Symbol : Type 0 where
  byte : ℕ → Symbol
  param : Bytes → Symbol

abbrev pub Spelling : Type 0
Spelling = List Symbol

abbrev pub of_bytes : Bytes → Spelling
of_bytes [] = []
of_bytes (b ∷ s) = byte b ∷ of_bytes s

abbrev pub spelling : List Segment → Spelling
spelling [] = []
spelling (Segment.static s ∷ segs) = of_bytes s ++ spelling segs
spelling (Segment.param name ∷ segs) = param name ∷ spelling segs

-- The names of the parameters, in order.
abbrev pub names : Spelling → List Bytes
names [] = []
names (byte _ ∷ s) = names s
names (param name ∷ s) = name ∷ names s

-- The end of a segment: the end of the path, or a slash.
abbrev pub IsSegmentEnd : Bytes → Type 0
IsSegmentEnd [] = Unit
IsSegmentEnd (c ∷ _) = c ≡ slash

-- A path fits a spelling: a byte stands for itself, and a parameter for a value without a slash that
-- goes to the end of its segment, where a path that is already at its end has nothing left for a
-- parameter.
pub data Fits : Spelling → Bytes → PathParams → Type 0 where
  done : Fits [] [] []
  literal :
      {b : ℕ} {s : Spelling} {path : Bytes} {caps : PathParams}
      → Fits s path caps
      → Fits (byte b ∷ s) (b ∷ path) caps
  capture :
      {name : Bytes} {s : Spelling} {c : ℕ} {path value rest : Bytes} {caps : PathParams}
      → c ∷ path ≡ value ++ rest
      → Lacks slash value
      → IsSegmentEnd rest
      → Fits s rest caps
      → Fits (param name ∷ s) (c ∷ path) ((name, value) ∷ caps)

-- What the lookup captures and leaves is the one such value and the path behind it.
pub captured-split :
    (path : Bytes)
    → (path ≡ captured path ++ left_over path)
      × Lacks slash (captured path)
      × IsSegmentEnd (left_over path)
unfolding captured left_over until
captured-split [] = (refl, tt, tt)
captured-split (c ∷ path) =
    let (e, v, r) = captured-split path in
    elim (Bool-cases (c == slash)) [
      | inl h ↦ rw h (refl, tt, ground arith)
      | inr h ↦ rw h (ap (λ l. c ∷ l) e, (ground arith, v), r)
    ]

pub captured_unique :
    (path value rest : Bytes)
    → path ≡ value ++ rest
    → Lacks slash value
    → IsSegmentEnd rest
    → (value ≡ captured path) × (rest ≡ left_over path)
unfolding captured left_over until
captured_unique [] [] [] e v r = (refl, refl)
captured_unique [] [] (c ∷ rest) e v r = cc
captured_unique [] (c ∷ value) rest e v r = cc
captured_unique (c ∷ path) [] [] e v r = cc
captured_unique (c ∷ path) [] (d ∷ rest) e v r =
    let same : c ≡ slash = cc in let h : (c == slash) ≡ true = ground arith in rw h (refl, sym e)
captured_unique (c ∷ path) (d ∷ value) rest e (n, v) r =
    let (same, left) = captured_unique path value rest (cc) v r in
    let front : c ≡ d = cc in let h : (c == slash) ≡ false = ground arith in rw h (cc, left)

pub of_bytes-append : (a b : Bytes) → of_bytes (a ++ b) ≡ of_bytes a ++ of_bytes b
of_bytes-append [] b = refl
of_bytes-append (c ∷ a) b = rw (of_bytes-append a b)

pub names-of_bytes : (s : Bytes) → names (of_bytes s) ≡ []
names-of_bytes [] = refl
names-of_bytes (b ∷ s) = names-of_bytes s

pub names-append : (s u : Spelling) → names (s ++ u) ≡ names s ++ names u
names-append [] u = refl
names-append (byte b ∷ s) u = names-append s u
names-append (param name ∷ s) u = rw (names-append s u)

pub Fits-of_bytes :
    (p : Bytes) {s : Spelling} {path : Bytes} {caps : PathParams}
    → Fits s path caps
    → Fits (of_bytes p ++ s) (p ++ path) caps
Fits-of_bytes [] f = f
Fits-of_bytes (b ∷ p) f = literal (Fits-of_bytes p f)

-- A path that fits captures one value for each parameter, under its name.
pub keys-Fits :
    {s : Spelling} {path : Bytes} {caps : PathParams} → Fits s path caps → keys caps ≡ names s
keys-Fits done = refl
keys-Fits (literal f) = keys-Fits f
keys-Fits (capture {name} e v r f) = ap (λ l. name ∷ l) (keys-Fits f)
