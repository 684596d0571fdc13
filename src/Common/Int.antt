-- ===== src/Common/Int.antt =====
-- C `int` values, over the native numbers, where the code lets them be negative.
use Prim.Native.Nat.{ℕ, suc, ◌+◌, ◌<◌}
use mathlib.Core.Path.{◌≡◌}
use mathlib.Core.Bool.{Bool}
use mathlib.Core.Option.{Option, none, some}
use native.Mathlib.Omega.{arith}
use small_os_simulator.Common.Tests.{ltb, ◌==◌, if◌then◌else◌}

-- `negsuc n` is -(n + 1).
pub data ℤ : Type 0 where
  pos : ℕ → ℤ
  negsuc : ℕ → ℤ

abbrev pub minus_one : ℤ
minus_one = negsuc 0

abbrev pub pos_part : ℤ → ℕ
pos_part (pos n) = n
pos_part (negsuc n) = 0

abbrev pub neg_part : ℤ → ℕ
neg_part (pos n) = 0
neg_part (negsuc n) = suc n

abbrev pub ltb_ℤ : ℤ → ℤ → Bool
ltb_ℤ a b = ltb (pos_part a + neg_part b) (pos_part b + neg_part a)

abbrev pub eqb_ℤ : ℤ → ℤ → Bool
eqb_ℤ a b = pos_part a + neg_part b == pos_part b + neg_part a

-- The guard `i < 0 || i >= size`: none if it holds, the index if not.
abbrev pub index : ℕ → ℤ → Option ℕ
index size (pos n) = if ltb n size then some n else none
index size (negsuc n) = none

pub index-lt : (size : ℕ) (i : ℤ) (n : ℕ) → index size i ≡ some n → n < size
index-lt size (pos m) n h = ground arith
index-lt size (negsuc m) n h = ground arith
