-- ===== src/Prelude/Integers.antt =====
-- Integers over the native numbers, under the library's names, for a signed column.
use Prim.Native.Nat.{ℕ}
use mathlib.Core.Bool.{Bool, false}
use rapina.Prelude.Tests.{ltb}

pub data ℤ : Type 0 where
  pos : ℕ → ℤ
  negsuc : ℕ → ℤ

-- `n < z`.
abbrev pub below : ℕ → ℤ → Bool
below n (pos m) = ltb n m
below n (negsuc m) = false
