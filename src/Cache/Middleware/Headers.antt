-- ===== src/Cache/Middleware/Headers.antt =====
-- What the middleware relies on in the `http` library's header maps, and the headers that a stored
-- response keeps.
use mathlib.Core.List.{Memᴰ}
use rapina.Prelude.{
  true, false, ◌≡◌, refl, ◌∙◌, inl, inr, List, [], ◌∷◌, Option, none, some, if◌then◌else◌, Bytes,
  bytes_eq, bytes_eq_iff, Bool-cases, All, sym,
}
use rapina.Cache.Middleware.{HeaderOps, cache_ttl_header, kept_headers}

-- The first value of a name.
abbrev pub first_value : Bytes → List (Bytes × Bytes) → Option Bytes
first_value name [] = none
first_value name ((n, v) ∷ headers) =
    let rest = first_value name headers in if bytes_eq n name then some v else rest

module _ {Headers : Type 0} (ops : HeaderOps Headers) where
  -- A header of some map, with a text as its value.
  pub record IsText (p : Bytes × Bytes) : Type 0 where
    pub origin : Headers
    pub listed : Memᴰ p (ops.iter origin)
    pub text : ops.to_str p.1 ≡ some p.1

  -- `get` gives the first value of a name; `insert` replaces the values of its name and touches no
  -- other; and a map that is built of headers with texts has them all.
  pub record HeaderLaws : Type 0 where
    pub get_iter : (name : Bytes) (h : Headers) → ops.get name h ≡ first_value name (ops.iter h)
    pub get_insert :
        (name other v : Bytes) (h : Headers)
        → ops.get name (ops.insert other v h)
          ≡ (if bytes_eq other name then some v else ops.get name h)
    pub get_build :
        (name : Bytes) (l : List (Bytes × Bytes))
        → All IsText l
        → ops.get name (ops.build l) ≡ first_value name l

  abbrev pub AllTexts : List (Bytes × Bytes) → Type 0
  AllTexts l = All (λ p. ops.to_str p.1 ≡ some p.1) l

  -- Of headers with texts, all but the internal one are kept, with their values.
  pub first_value-kept :
      (name : Bytes) (l : List (Bytes × Bytes))
      → bytes_eq name cache_ttl_header ≡ false
      → AllTexts l
      → first_value name (kept_headers ops l) ≡ first_value name l
  first_value-kept name [] own t = refl
  first_value-kept name ((n, v) ∷ l) own (text, t) =
      let rest = first_value-kept name l own t in
      elim (Bool-cases (bytes_eq n cache_ttl_header)) [
        | inl e ↦ let other : bytes_eq n name ≡ false = differs n e in rw (e, other) rest
        | inr e ↦ rw (e, text, rest) refl
      ]
    where
      differs : (n : Bytes) → bytes_eq n cache_ttl_header ≡ true → bytes_eq n name ≡ false
      differs n e = elim (Bool-cases (bytes_eq n name)) [
        | inr f ↦ f
        | inl f ↦ let same : n ≡ name = (bytes_eq_iff n name).0 f in cc (sym (rw same at e) ∙ own)
      ]

  pub kept-IsText :
      (origin : Headers) (l : List (Bytes × Bytes))
      → ((p : Bytes × Bytes) → Memᴰ p l → Memᴰ p (ops.iter origin))
      → AllTexts l
      → All IsText (kept_headers ops l)
  kept-IsText origin [] listed t = tt
  kept-IsText origin ((n, v) ∷ l) listed (text, t) =
      let rest = kept-IsText origin l (λ p m. listed p (Memᴰ.tail m)) t in
      elim (Bool-cases (bytes_eq n cache_ttl_header)) [
        | inl e ↦ rw e rest
        | inr e ↦
            rw (e, text)
              (
                record { origin = origin; listed = listed (n, v) (Memᴰ.head refl); text = text },
                rest,
              )
      ]
