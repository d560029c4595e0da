-- ===== src/Prelude/Split.antt =====
-- Laws of splitting and joining text.
use Prim.Native.Nat.{ℕ}
use mathlib.Core.Path.{◌≡◌, refl}
use mathlib.Core.Logic.{◌≢◌}
use mathlib.Core.List.{List, [], ◌∷◌, ◌++◌}
use native.Mathlib.Omega.{arith}
use rapina.Prelude.Text.{Bytes, split, join, Lacks, push_head}
use rapina.Prelude.Lists.{All}

pub split-nonempty : (b : ℕ) (s : Bytes) → split b s ≢ []
unfolding split
split-nonempty b [] h = cc
split-nonempty b (c ∷ s) h = ground (arith, split-nonempty b s)

join-push_head : (b c : ℕ) (ps : List Bytes) → join (b ∷ []) (push_head c ps) ≡ c ∷ join (b ∷ []) ps
unfolding join
join-push_head b c [] = refl
join-push_head b c (p ∷ []) = refl
join-push_head b c (p ∷ q ∷ ps) = refl

join-nil_cons : (b : ℕ) (ps : List Bytes) → ps ≢ [] → join (b ∷ []) ([] ∷ ps) ≡ b ∷ join (b ∷ []) ps
unfolding join
join-nil_cons b [] h = absurd (h refl)
join-nil_cons b (p ∷ ps) h = refl

-- Joining the parts again gives the text back.
pub join-split : (b : ℕ) (s : Bytes) → join (b ∷ []) (split b s) ≡ s
unfolding split
join-split b [] = unfold join in refl
join-split b (c ∷ s) = ground (
  arith,
  join-split b s,
  split-nonempty b s,
  join-push_head b c (split b s),
  join-nil_cons b (split b s),
)

All-push_head :
    (b c : ℕ) (ps : List Bytes) → c ≢ b → All (Lacks b) ps → All (Lacks b) (push_head c ps)
All-push_head b c [] h k = ((h, tt), tt)
All-push_head b c (p ∷ ps) h (k, ks) = ((h, k), ks)

-- No part holds the separator.
pub split-Lacks : (b : ℕ) (s : Bytes) → All (Lacks b) (split b s)
unfolding split
split-Lacks b [] = (tt, tt)
split-Lacks b (c ∷ s) = ground (arith, split-Lacks b s, All-push_head b c (split b s))

split_of_Lacks : (b : ℕ) (p : Bytes) → Lacks b p → split b p ≡ p ∷ []
unfolding split
split_of_Lacks b [] h = refl
split_of_Lacks b (c ∷ p) (h, k) = ground (arith, split_of_Lacks b p k)

split_first : (b : ℕ) (p s : Bytes) → Lacks b p → split b (p ++ b ∷ s) ≡ p ∷ split b s
unfolding split
split_first b [] s h = ground arith
split_first b (c ∷ p) s (h, k) = ground (arith, split_first b p s k)

-- Parts without the separator are what a split of their join gives.
pub split-join :
    (b : ℕ) (p : Bytes) (ps : List Bytes)
    → All (Lacks b) (p ∷ ps)
    → split b (join (b ∷ []) (p ∷ ps)) ≡ p ∷ ps
unfolding join
split-join b p [] (h, _) = split_of_Lacks b p h
split-join b p (q ∷ ps) (h, hs) =
    rw (split_first b p (join (b ∷ []) (q ∷ ps)) h, split-join b q ps hs)
