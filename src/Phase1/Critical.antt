-- ===== src/Phase1/Critical.antt =====
-- Processes that guard a section with `P1_P` and `P1_V` of one semaphore of phase1c.c, between any other
-- operations of phase 1, in any order.
pub mod Counts
pub mod Guard
pub mod Safety
pub mod Fair
mod Tests
use small_os_simulator.Common.{
  ℕ, ◌≡◌, ◌≢◌, ◌⊎◌, ◌==◌, Bool, true, false, some, ltb, List, [], ◌∷◌, if◌then◌else◌, ℤ, pos,
  negsuc,
}
use small_os_simulator.Phase1.Types.{Config}
use small_os_simulator.Phase1.Procs.{get_pid, current}
use small_os_simulator.Phase1.Sems.{sem, valid_sid, p_round, v_update}
use small_os_simulator.Phase1.Kernel.{Kernel, Step}

-- Where a process is: it has not called `P1_P`, is blocked in its loop, is woken and about to go round
-- again, or has returned from it.
pub data Place : Type 0 where
  outside blocked woken inside : Place

pub record Users : Type 0 where
  pub kernel : Kernel
  pub place : ℕ → Place

abbrev pub put : (ℕ → Place) → ℕ → Place → ℕ → Place
put f q p j = if q == j then p else f j

-- The process at the head of the waiting list is woken.
abbrev pub wake : List ℤ → (ℕ → Place) → ℕ → Place
wake [] f = f
wake (pos r ∷ rest) f = put f r woken
wake (negsuc n ∷ rest) f = f

-- The kernel after a round of `P1_P` on semaphore `m`, and after `P1_V`.
abbrev pub downed : Config → ℕ → Kernel → Kernel
downed c m k = record k {
  sched = (p_round c m k.sched k.sems).1;
  sems = (p_round c m k.sched k.sems).2;
}

abbrev pub upped : Config → ℕ → Kernel → Kernel
upped c m k = record k {
  sched = (v_update c m k.sched k.sems).1;
  sems = (v_update c m k.sched k.sems).2;
}

-- One step: the process at the head of the dispatch queue, which is the one that executes, goes round
-- the loop of `P1_P`, or calls `P1_V` from inside, or the kernel makes a step that leaves the semaphore
-- as it is. A round of `P1_P` that blocks is a step only where `P1_GetPid`, whose process it blocks,
-- gives the one that executes. It need not: `P1_Fork` leaves a new process marked as running, and if its
-- slot is below that of the caller, `P1_GetPid` gives the new one until `P1Dispatch` puts it aside.
pub data Use (c : Config) (wrapper m : ℕ) (u : Users) : Users → Type 0 where
  tries :
      (q : ℕ)
      → current u.kernel.sched ≡ q
      → u.kernel.sched.queue ≢ []
      → (ltb 0 (sem u.kernel.sems m).value ≡ false → get_pid u.kernel.sched ≡ pos q)
      → (u.place q ≡ outside) ⊎ (u.place q ≡ woken)
      → valid_sid (pos m) u.kernel.sems ≡ some m
      → Use c wrapper m u (record {
        kernel = downed c m u.kernel;
        place =
            put u.place q
              (if (p_round c m u.kernel.sched u.kernel.sems).0 then inside else blocked);
      })
  leaves :
      (q : ℕ)
      → current u.kernel.sched ≡ q
      → u.kernel.sched.queue ≢ []
      → u.place q ≡ inside
      → valid_sid (pos m) u.kernel.sems ≡ some m
      → Use c wrapper m u (record {
        kernel = upped c m u.kernel;
        place = wake (sem u.kernel.sems m).head (put u.place q outside);
      })
  elsewhere :
      {l : Kernel}
      → Step c wrapper u.kernel l
      → sem l.sems m ≡ sem u.kernel.sems m
      → Use c wrapper m u (record { kernel = l; place = u.place })

-- Any number of steps.
pub data Uses (c : Config) (wrapper m : ℕ) (u : Users) : Users → Type 0 where
  here : Uses c wrapper m u u
  next : {v w : Users} → Uses c wrapper m u v → Use c wrapper m v w → Uses c wrapper m u w

abbrev pub is_inside : Place → ℕ
is_inside inside = 1
is_inside _ = 0

abbrev pub is_woken : Place → ℕ
is_woken woken = 1
is_woken _ = 0
