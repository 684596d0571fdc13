-- ===== src/Common/Search.antt =====
-- The loop `for (i = 0; i < n; i++) if (test(a[i])) break;`, which leaves the index of the first
-- entry that passes the test, or the length.
use Prim.Native.Nat.{ℕ, zero, suc, ◌≤◌, ◌<◌}
use mathlib.Core.Path.{◌≡◌}
use mathlib.Core.Bool.{Bool, true, false}
use mathlib.Core.List.{List, [], ◌∷◌}
use native.Mathlib.Omega.{arith}
use small_os_simulator.Common.Tests.{if◌then◌else◌}
use small_os_simulator.Common.Arrays.{length, get_or}

module _ {ℓ} {A : Type ℓ} (test : A → Bool) where
  unfoldable pub find_index : List A → ℕ
  find_index [] = 0
  find_index (x ∷ xs) = if test x then 0 else suc (find_index xs)

  pub find_index-le : (xs : List A) → find_index xs ≤ length xs
  unfolding find_index
  find_index-le [] = omega arith
  find_index-le (x ∷ xs) = ground (arith, find_index-le xs)

  -- What the loop stops at passes the test.
  pub find_index-holds :
      (xs : List A) (d : A) → find_index xs < length xs → test (get_or xs (find_index xs) d) ≡ true
  unfolding find_index
  find_index-holds [] d h = absurd (omega arith)
  find_index-holds (x ∷ xs) d h = ground (arith, find_index-holds xs d)

  -- What it passed over does not.
  pub find_index-fails :
      (xs : List A) (i : ℕ) (d : A) → i < find_index xs → test (get_or xs i d) ≡ false
  unfolding find_index
  find_index-fails [] i d h = absurd (omega arith)
  find_index-fails (x ∷ xs) zero d h = ground arith
  find_index-fails (x ∷ xs) (suc i) d h = ground (arith, find_index-fails xs i d)
