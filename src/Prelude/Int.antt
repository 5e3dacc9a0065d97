-- ===== src/Prelude/Int.antt =====
-- Python's integers as a type of two signs over the native numbers, with the comparisons that the
-- code makes between a count and a configured integer.
use Prim.Native.Nat.{ℕ}
use mathlib.Core.Bool.{Bool, true}
use sb_poc.Prelude.Tests.{leb, ltb}

-- `negsuc n` is -(n + 1).
pub data ℤ : Type 0 where
  pos : ℕ → ℤ
  negsuc : ℕ → ℤ

-- `n >= z`
abbrev pub at_least : ℕ → ℤ → Bool
at_least n (pos k) = leb k n
at_least n (negsuc k) = true

-- `n > z`
abbrev pub exceeds : ℕ → ℤ → Bool
exceeds n (pos k) = ltb k n
exceeds n (negsuc k) = true

-- Clocks count microseconds.
abbrev pub second : ℕ
second = 1000000
