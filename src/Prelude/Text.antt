-- ===== src/Prelude/Text.antt =====
-- Text as the list of its bytes. Rust's `str` is UTF-8, so a search for an ASCII delimiter may be
-- read byte by byte: no other character's encoding contains one. A slice at an index that does not
-- come from such a search asks `is_char_boundary`, and panics inside a character.
use Prim.Native.Char.{code}
use Prim.Native.String.{String}
use Prim.Native.Nat.{ℕ, zero, suc, ◌<◌}
use mathlib.Core.Path.{◌≡◌, refl}
use mathlib.Core.Logic.{◌↔◌}
use mathlib.Core.Bool.{Bool, true, false, ◌&&◌, ◌||◌}
use mathlib.Core.List.{List, [], ◌∷◌, ◌++◌}
use native.Mathlib.Omega.{arith}
use mathlib.Core.Option.{Option, none, some}
use mathlib.Core.Logic.{◌≢◌}
use rapina.Prelude.Lists.{drop}
use rapina.Prelude.Tests.{ltb, leb, ◌==◌, if◌then◌else◌, ==_refl, is_some}

abbrev pub Bytes : Type 0
Bytes = List ℕ

-- The bytes of an ASCII literal.
abbrev pub codes : String → Bytes
codes String.[] = []
codes (String.◌∷◌ c s) = code c ∷ codes s

abbrev pub slash : ℕ
slash = b'/'

abbrev pub colon : ℕ
colon = b':'

unfoldable pub bytes_eq : Bytes → Bytes → Bool
bytes_eq [] [] = true
bytes_eq (a ∷ xs) (b ∷ ys) = a == b && bytes_eq xs ys
bytes_eq _ _ = false

pub bytes_eq_iff : (xs ys : Bytes) → (bytes_eq xs ys ≡ true) ↔ (xs ≡ ys)
unfolding bytes_eq
bytes_eq_iff [] [] = ((λ _. refl), (λ _. refl))
bytes_eq_iff [] (b ∷ ys) = ((λ h. cc), (λ h. cc))
bytes_eq_iff (a ∷ xs) [] = ((λ h. cc), (λ h. cc))
bytes_eq_iff (a ∷ xs) (b ∷ ys) = ground (arith, bytes_eq_iff xs ys)

pub bytes_eq_refl : (xs : Bytes) → bytes_eq xs xs ≡ true
bytes_eq_refl xs = (bytes_eq_iff xs xs).1 refl

-- `str::strip_prefix`, by a text.
unfoldable pub strip_prefix : Bytes → Bytes → Option Bytes
strip_prefix [] s = some s
strip_prefix (p ∷ ps) [] = none
strip_prefix (p ∷ ps) (c ∷ s) = if p == c then strip_prefix ps s else none

pub strip_prefix_append : (p s : Bytes) → strip_prefix p (p ++ s) ≡ some s
unfolding strip_prefix
strip_prefix_append [] s = refl
strip_prefix_append (c ∷ p) s = rw (==_refl c) (strip_prefix_append p s)

pub strip_prefix_sound : (p s r : Bytes) → strip_prefix p s ≡ some r → s ≡ p ++ r
unfolding strip_prefix
strip_prefix_sound [] s r h = ground arith
strip_prefix_sound (c ∷ p) [] r h = cc
strip_prefix_sound (c ∷ p) (d ∷ s) r h = ground (arith, strip_prefix_sound p s r)

abbrev pub starts_with : Bytes → Bytes → Bool
starts_with p s = is_some (strip_prefix p s)

-- `str::starts_with` by one byte.
abbrev pub starts_with_byte : ℕ → Bytes → Bool
starts_with_byte b [] = false
starts_with_byte b (c ∷ s) = c == b

abbrev pub is_empty {ℓ} : {A : Type ℓ} → List A → Bool
is_empty [] = true
is_empty (_ ∷ _) = false

-- `str::split` by one byte: there is always a first part.
abbrev pub push_head : ℕ → List Bytes → List Bytes
push_head c [] = (c ∷ []) ∷ []
push_head c (p ∷ ps) = (c ∷ p) ∷ ps

unfoldable pub split : ℕ → Bytes → List Bytes
split b [] = [] ∷ []
split b (c ∷ s) = let rest = split b s in if c == b then [] ∷ rest else push_head c rest

-- `[&str]::join`.
unfoldable pub join : Bytes → List Bytes → Bytes
join sep [] = []
join sep (p ∷ []) = p
join sep (p ∷ q ∷ ps) = p ++ (sep ++ join sep (q ∷ ps))

-- `str::is_char_boundary`, at the place between the two parts of a text: its ends are boundaries,
-- and a byte from 128 to 191 goes on with a character.
unfoldable pub is_char_boundary : Bytes → Bytes → Bool
is_char_boundary [] after = true
is_char_boundary (_ ∷ _) [] = true
is_char_boundary (_ ∷ _) (b ∷ _) = ltb b 128 || leb 192 b

-- Every byte is an ASCII character.
abbrev pub IsAscii : Bytes → Type 0
IsAscii [] = Unit
IsAscii (c ∷ s) = (c < 128) × IsAscii s

pub IsAscii-drop : (n : ℕ) (s : Bytes) → IsAscii s → IsAscii (drop n s)
IsAscii-drop zero s h = h
IsAscii-drop (suc n) [] h = tt
IsAscii-drop (suc n) (c ∷ s) (_, h) = IsAscii-drop n s h

pub IsAscii-append : (s t : Bytes) → IsAscii (s ++ t) → IsAscii t
IsAscii-append [] t h = h
IsAscii-append (c ∷ s) t (_, h) = IsAscii-append s t h

pub not_boundary : (s t : Bytes) → is_char_boundary s t ≡ false → ¬ IsAscii t
unfolding is_char_boundary
not_boundary [] t h a = cc
not_boundary (c ∷ s) [] h a = cc
not_boundary (c ∷ s) (b ∷ t) h (a, _) = ground arith

-- No byte of the text is `b`.
abbrev pub Lacks : ℕ → Bytes → Type 0
Lacks b [] = Unit
Lacks b (c ∷ s) = (c ≢ b) × Lacks b s
