-- ===== src/Prelude/Int.antt =====
-- Python's `int` where a caller may hand in a negative number: a sign and a magnitude, and the
-- comparisons that the program makes against natural numbers.
use Prim.Native.Nat.{ℕ, zero, suc}
use mathlib.Core.Bool.{Bool, true, false}
use intake.Prelude.Tests.{ltb, leb}

-- `negsuc n` is -(n + 1).
pub data ℤ : Type 0 where
  pos : ℕ → ℤ
  negsuc : ℕ → ℤ

-- `z <= 0`
abbrev pub le_zero : ℤ → Bool
le_zero (pos zero) = true
le_zero (pos (suc n)) = false
le_zero (negsuc n) = true

-- `n > z`
abbrev pub exceeds : ℕ → ℤ → Bool
exceeds n (pos m) = ltb m n
exceeds n (negsuc m) = true

-- `n >= z`
abbrev pub reaches : ℕ → ℤ → Bool
reaches n (pos m) = leb m n
reaches n (negsuc m) = true
