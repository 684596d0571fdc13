-- ===== src/Phase2/Clock/Sleep.antt =====
-- Who sleeps and who is woken.
use small_os_simulator.Common.{
  ℕ, zero, suc, ◌+◌, ◌*◌, ◌^◌, ◌<◌, ◌≡◌, refl, ◌∙◌, ap, true, not, ◌&&◌, List, [], ◌∷◌, arith, ltb,
  length, set, get_or-set_self, ℤ, pos, ltb_ℤ,
}
use native.Mathlib.Nat.{mod-eq_of_lt}
use small_os_simulator.Phase2.Clock.{
  to_int, to_word, Sleeper, no_sleeper, sleeper, waits, sleep, due, wake_due,
}

-- After a round of the driver, an entry is in use if it was and is not due.
wake_due_lem :
    (now : ℤ) (table : List Sleeper) (i : ℕ)
    → (sleeper (wake_due now table).0 i).is_being_used
      ≡ ((sleeper table i).is_being_used && not (due now (sleeper table i)))
unfolding wake_due
wake_due_lem now [] i = refl
wake_due_lem now (x ∷ xs) zero = ground arith
wake_due_lem now (x ∷ xs) (suc i) = ground (arith, wake_due_lem now xs i)

to_int_small : (n : ℕ) → n < 2 ^ 31 → to_int n ≡ pos n
unfolding to_int
to_int_small n h = ground arith

to_word_small : (n : ℕ) → n < 2 ^ 31 → to_word (pos n) ≡ n
unfolding to_word
to_word_small n h = mod-eq_of_lt (omega arith)

-- The entry that a process going to sleep fills.
abbrev asleep : ℕ → ℕ → ℕ → List Sleeper → Sleeper
asleep n pid start table = record (sleeper table pid) {
  pid = pid;
  start_time = pos start;
  rest_time = to_int (to_word (pos n) * 1000000);
  is_being_used = true;
}

rest_exact : (n : ℕ) → n * 1000000 < 2 ^ 31 → to_int (to_word (pos n) * 1000000) ≡ pos (n * 1000000)
rest_exact n h = rw (to_word_small n (omega arith)) (to_int_small (n * 1000000) h)

wakes_at : (now w : ℕ) → not (true && not (ltb_ℤ (pos now) (pos w))) ≡ ltb now w
wakes_at now w = ground arith

due-asleep :
    (n pid start now : ℕ) (table : List Sleeper)
    → start + n * 1000000 < 2 ^ 31
    → not (due (pos now) (asleep n pid start table)) ≡ ltb now (start + n * 1000000)
unfolding due
due-asleep n pid start now table fits =
    let total : to_int (to_word (asleep n pid start table).rest_time + to_word (pos start))
        ≡ pos (start + n * 1000000) =
      rw
        (
          rest_exact n (omega arith),
          to_word_small (n * 1000000) (omega arith),
          to_word_small start (omega arith),
        )
        (to_int_small (n * 1000000 + start) (omega arith) ∙ ap pos (omega arith)) in
    rw total (wakes_at now (start + n * 1000000))

-- A process whose pid is in the table sleeps for `n` seconds, with `n` positive, the clock reads
-- `start`, and the wake time in microseconds is below 2^31. Then `P2_Sleep` waits on the semaphore
-- of its entry, and a later round of the clock driver at time `now` keeps the entry in use exactly
-- when `now` is before the wake time.
pub wake_due-sleep :
    (n pid start now : ℕ) (table : List Sleeper)
    → pid < length table
    → 0 < n
    → start + n * 1000000 < 2 ^ 31
    → (table' : List Sleeper) × (sleep (pos n) pid (pos start) table
        ≡ waits table' (sleeper table pid).sem_id)
      × ((sleeper (wake_due (pos now) table').0 pid).is_being_used ≡ ltb now (start + n * 1000000))
unfolding sleep
wake_due-sleep zero pid start now table lt positive fits = absurd (omega arith)
wake_due-sleep (suc k) pid start now table lt positive fits =
    let table' = set table pid (asleep (suc k) pid start table) in
    let entry : sleeper table' pid ≡ asleep (suc k) pid start table =
      get_or-set_self table pid (asleep (suc k) pid start table) no_sleeper lt in
    (
      table',
      refl,
      wake_due_lem (pos now) table' pid
          ∙ ap (λ x. x.is_being_used && not (due (pos now) x)) entry
          ∙ due-asleep (suc k) pid start now table fits,
    )
