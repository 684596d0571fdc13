-- ===== src/Phase1/Join/Ticks.antt =====
-- The ticks of the clock interrupt.
use small_os_simulator.Common.{ℕ, zero, suc, ◌+◌, ◌%◌, ◌≡◌, ◌<◌, refl, ◌==◌, arith}
use small_os_simulator.Phase1.Join.{tick}

-- The ticks that are kept after `n` interrupts.
unfoldable pub ticks_after : ℕ → ℕ
unfolding tick
ticks_after zero = 0
ticks_after (suc n) = (tick (ticks_after n)).0

ticks_after_lem : (n : ℕ) → ticks_after n ≡ n % 20
unfolding ticks_after tick
ticks_after_lem zero = refl
ticks_after_lem (suc n) = ground (arith, ticks_after_lem n)

-- After any number `n` of clock interrupts the kept ticks are below 20, and the next interrupt
-- wakes the clock device exactly when it is a fifth one and calls the dispatcher exactly when it is
-- a fourth one, counted from the start.
pub tick-ticks_after :
    (n : ℕ)
    → ((tick (ticks_after n)).1 ≡ ((n + 1) % 5 == 0))
      × ((tick (ticks_after n)).2 ≡ ((n + 1) % 4 == 0))
      × (ticks_after n < 20)
unfolding tick
tick-ticks_after n = ground (arith, ticks_after_lem n)
