-- ===== src/Cache/Middleware/Prefixes.antt =====
-- The prefixes that a mutation drops, by the segments of its path and of its route's pattern.
use mathlib.Core.List.{Memᴰ}
use rapina.Prelude.{
  Bool, suc, true, false, ◌≡◌, refl, sym, ap, ◌∙◌, inl, inr, List, [], ◌∷◌, ◌++◌, Option, none,
  some, Bytes, codes, slash, colon, starts_with_byte, any, append-nil, append_assoc, Bool-cases,
  length, arith, not, is_empty, split,
}
use rapina.Cache.Middleware.{
  prefixes_from, prefixes_along, build_invalidation_prefixes,
  build_invalidation_prefixes_from_pattern, filter,
}

-- Each segment behind a slash.
abbrev pub slashed : List Bytes → Bytes
slashed [] = []
slashed (s ∷ ss) = slash ∷ (s ++ slashed ss)

-- The segments of a text, without the empty ones.
abbrev pub named_segments : Bytes → List Bytes
named_segments path = filter (λ s. not (is_empty s)) (split slash path)

-- A beginning of the path: its segments up to one of them, behind a text.
pub record Begins (current : Bytes) (segs : List Bytes) (text : Bytes) : Type 0 where
  pub front : List Bytes
  pub seg : Bytes
  pub others : List Bytes
  pub split_path : segs ≡ front ++ seg ∷ others
  pub spelled : text ≡ codes "GET:" ++ (current ++ slashed (front ++ seg ∷ []))

-- A beginning of the path that ends where the pattern has a static segment.
pub record Collects (current : Bytes) (pats segs : List Bytes) (text : Bytes) : Type 0 where
  pub begins : Begins current segs text
  pub before : List Bytes
  pub pat : Bytes
  pub behind : List Bytes
  pub split_pattern : pats ≡ before ++ pat ∷ behind
  pub aligned : length before ≡ length begins.front
  pub static_pat : starts_with_byte colon pat ≡ false

-- A prefix for a mutation at a path, with or without a pattern.
abbrev pub IsPrefix : Bytes → Option Bytes → Bytes → Type 0
IsPrefix path none text = Begins [] (named_segments path) text
IsPrefix path (some pattern) text = Collects [] (named_segments pattern) (named_segments path) text

spelled_later :
    (current s : Bytes) (front : List Bytes) (seg : Bytes)
    → (current ++ slash ∷ s) ++ slashed (front ++ seg ∷ [])
      ≡ current ++ slashed ((s ∷ front) ++ seg ∷ [])
spelled_later current s front seg = append_assoc current (slash ∷ s) (slashed (front ++ seg ∷ []))

begins_here :
    (current s : Bytes) (ss : List Bytes)
    → Begins current (s ∷ ss) (codes "GET:" ++ (current ++ slash ∷ s))
begins_here current s ss = record {
  front = [];
  seg = s;
  others = ss;
  split_path = refl;
  spelled = ap (λ t. codes "GET:" ++ (current ++ slash ∷ t)) (sym (append-nil s));
}

begins_later :
    (current s text : Bytes) (ss : List Bytes)
    → Begins (current ++ slash ∷ s) ss text
    → Begins current (s ∷ ss) text
begins_later current s text ss b = record {
  front = s ∷ b.front;
  seg = b.seg;
  others = b.others;
  split_path = ap (λ l. s ∷ l) b.split_path;
  spelled = b.spelled ∙ ap (λ t. codes "GET:" ++ t) (spelled_later current s b.front b.seg);
}

-- Every prefix that is built is one.
from-Begins :
    (current : Bytes) (segs : List Bytes) (text : Bytes)
    → Memᴰ text (prefixes_from current segs)
    → Begins current segs text
from-Begins current [] text m = elim m [ ]
from-Begins current (s ∷ ss) text (Memᴰ.head e) = rw (e) (begins_here current s ss)
from-Begins current (s ∷ ss) text (Memᴰ.tail m) =
    begins_later current s text ss (from-Begins (current ++ slash ∷ s) ss text m)

along-Collects :
    (current : Bytes) (pats segs : List Bytes) (text : Bytes)
    → Memᴰ text (prefixes_along current pats segs)
    → Collects current pats segs text
unfolding begins_later begins_here
along-Collects current [] segs text m = elim m [ ]
along-Collects current (p ∷ ps) [] text m = elim m [ ]
along-Collects current (p ∷ ps) (s ∷ ss) text m = elim (Bool-cases (starts_with_byte colon p)) [
  | inl e ↦ later (along-Collects (current ++ slash ∷ s) ps ss text (rw e at m))
  | inr e ↦ pick e (rw e at m) (λ k. later (along-Collects (current ++ slash ∷ s) ps ss text k))
]
  where
    later : Collects (current ++ slash ∷ s) ps ss text → Collects current (p ∷ ps) (s ∷ ss) text
    later c = record {
      begins = begins_later current s text ss c.begins;
      before = p ∷ c.before;
      pat = c.pat;
      behind = c.behind;
      split_pattern = ap (λ l. p ∷ l) c.split_pattern;
      aligned = ap (λ n. suc n) c.aligned;
      static_pat = c.static_pat;
    }

    pick :
        starts_with_byte colon p ≡ false
        → Memᴰ text
            ((codes "GET:" ++ (current ++ slash ∷ s)) ∷ prefixes_along (current ++ slash ∷ s) ps ss)
        → (Memᴰ text (prefixes_along (current ++ slash ∷ s) ps ss)
            → Collects current (p ∷ ps) (s ∷ ss) text)
        → Collects current (p ∷ ps) (s ∷ ss) text
    pick e (Memᴰ.head same) go = record {
      begins = rw same (begins_here current s ss);
      before = [];
      pat = p;
      behind = ps;
      split_pattern = refl;
      aligned = refl;
      static_pat = e;
    }
    pick e (Memᴰ.tail m) go = go m

-- And every one is built.
from_begins :
    (current : Bytes) (front : List Bytes) (seg : Bytes) (others : List Bytes)
    → Memᴰ
        (codes "GET:" ++ (current ++ slashed (front ++ seg ∷ [])))
        (prefixes_from current (front ++ seg ∷ others))
from_begins current [] seg others =
    Memᴰ.head (ap (λ t. codes "GET:" ++ (current ++ slash ∷ t)) (append-nil seg))
from_begins current (s ∷ front) seg others =
    let later = from_begins (current ++ slash ∷ s) front seg others in
    Memᴰ.tail (rw (spelled_later current s front seg) at later)

along_collects :
    (current : Bytes) (before front : List Bytes) (pat : Bytes) (behind : List Bytes) (seg : Bytes)
    (others : List Bytes)
    → length before ≡ length front
    → starts_with_byte colon pat ≡ false
    → Memᴰ
        (codes "GET:" ++ (current ++ slashed (front ++ seg ∷ [])))
        (prefixes_along current (before ++ pat ∷ behind) (front ++ seg ∷ others))
along_collects current [] [] pat behind seg others e h =
    rw h (Memᴰ.head (ap (λ t. codes "GET:" ++ (current ++ slash ∷ t)) (append-nil seg)))
along_collects current [] (s ∷ front) pat behind seg others e h = absurd (omega (arith, e))
along_collects current (p ∷ before) [] pat behind seg others e h = absurd (omega (arith, e))
along_collects current (p ∷ before) (s ∷ front) pat behind seg others e h =
    let later =
      along_collects (current ++ slash ∷ s) before front pat behind seg others (omega (arith, e))
        h in
    let there = rw (spelled_later current s front seg) at later in
    elim (Bool-cases (starts_with_byte colon p)) [
      | inl f ↦ rw f there
      | inr f ↦ rw f (Memᴰ.tail there)
    ]

-- The built list holds the prefixes and nothing else.
pub built-IsPrefix :
    (path : Bytes) (pattern : Option Bytes) (text : Bytes)
    → Memᴰ text (build_invalidation_prefixes path pattern)
    → IsPrefix path pattern text
unfolding build_invalidation_prefixes build_invalidation_prefixes_from_pattern
built-IsPrefix path none text m = from-Begins [] (named_segments path) text m
built-IsPrefix path (some pattern) text m =
    along-Collects [] (named_segments pattern) (named_segments path) text m

pub IsPrefix-built :
    (path : Bytes) (pattern : Option Bytes) (text : Bytes)
    → IsPrefix path pattern text
    → Memᴰ text (build_invalidation_prefixes path pattern)
unfolding build_invalidation_prefixes build_invalidation_prefixes_from_pattern
IsPrefix-built path none text b =
    rw (b.spelled, b.split_path) (from_begins [] b.front b.seg b.others)
IsPrefix-built path (some pattern) text c =
    rw (c.begins.spelled, c.begins.split_path, c.split_pattern)
      (along_collects [] c.before c.begins.front c.pat c.behind c.begins.seg c.begins.others
        c.aligned c.static_pat)

pub any-true :
    (test : Bytes → Bool) (l : List Bytes)
    → any test l ≡ true
    → (x : Bytes) × Memᴰ x l × (test x ≡ true)
any-true test [] h = cc
any-true test (x ∷ l) h = elim (Bool-cases (test x)) [
  | inl e ↦ (x, Memᴰ.head refl, e)
  | inr e ↦ let (y, m, f) = any-true test l (rw e at h) in (y, Memᴰ.tail m, f)
]

pub any-false :
    (test : Bytes → Bool) (l : List Bytes)
    → any test l ≡ false
    → (x : Bytes) → Memᴰ x l
    → test x ≡ false
any-false test [] h x m = elim m [ ]
any-false test (y ∷ l) h x (Memᴰ.head e) = elim (Bool-cases (test y)) [
  | inl f ↦ cc (rw f at h)
  | inr f ↦ rw e f
]
any-false test (y ∷ l) h x (Memᴰ.tail m) = elim (Bool-cases (test y)) [
  | inl f ↦ cc (rw f at h)
  | inr f ↦ any-false test l (rw f at h) x m
]
