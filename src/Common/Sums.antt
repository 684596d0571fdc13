-- ===== src/Common/Sums.antt =====
-- Sums of a function over the numbers below a bound.
use Prim.Native.Nat.{ℕ, zero, suc, ◌+◌, ◌≤◌, ◌<◌}
use mathlib.Core.Path.{◌≡◌, refl, subst}
use native.Mathlib.Omega.{arith}
use native.Mathlib.Decide.{dec_lt}
use small_os_simulator.Common.Tests.{◌==◌, if◌then◌else◌}

unfoldable pub total : ℕ → (ℕ → ℕ) → ℕ
total zero f = 0
total (suc n) f = total n f + f n

pub total-add : (n : ℕ) (f g : ℕ → ℕ) → total n (λ j. f j + g j) ≡ total n f + total n g
unfolding total
total-add zero f g = refl
total-add (suc n) f g = omega (arith, total-add n f g)

total_delta_out : (n p : ℕ) → n ≤ p → total n (λ j. if p == j then 1 else 0) ≡ 0
unfolding total
total_delta_out zero p h = refl
total_delta_out (suc n) p h = ground (arith, total_delta_out n p)

pub total_delta : (n p : ℕ) → p < n → total n (λ j. if p == j then 1 else 0) ≡ 1
unfolding total
total_delta zero p h = absurd (omega arith)
total_delta (suc n) p h = elim (dec_lt p n) [
  | yes below ↦ ground (arith, total_delta n p below)
  | no last ↦ ground (arith, total_delta_out n p)
]

pub total_zero : (n : ℕ) → total n (λ j. 0) ≡ 0
unfolding total
total_zero zero = refl
total_zero (suc n) = omega (arith, total_zero n)

total-le : (n : ℕ) (f : ℕ → ℕ) → ((j : ℕ) → f j ≤ 1) → total n f ≤ n
unfolding total
total-le zero f h = omega arith
total-le (suc n) f h = omega (arith, total-le n f h, h n)

-- If one term below the bound is 0 and none is above 1, the sum is less than the bound.
pub total-lt : (n p : ℕ) (f : ℕ → ℕ) → ((j : ℕ) → f j ≤ 1) → p < n → f p ≡ 0 → total n f < n
unfolding total
total-lt zero p f h lt e = absurd (omega arith)
total-lt (suc n) p f h lt e = elim (dec_lt p n) [
  | yes below ↦ omega (arith, total-lt n p f h below e, h n)
  | no last ↦
      let e' : f n ≡ 0 = subst (λ k. f k ≡ 0) (omega arith) e in omega (arith, total-le n f h)
]
