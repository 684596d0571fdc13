-- ===== src/Phase1/Critical/Fair.antt =====
-- Semaphores of phase1c.c are fair: `P1_V` wakes in the order in which `P1_P` blocked, whatever else the
-- processes do between these calls.
use small_os_simulator.Common.{ℕ, ◌≡◌, some, List, [], ◌∷◌, ◌++◌, ltb, if◌then◌else◌, ℤ, pos}
use small_os_simulator.Phase1.Types.{Config}
use small_os_simulator.Phase1.Procs.{get_pid}
use small_os_simulator.Phase1.Sems.{sem, valid_sid}
use small_os_simulator.Phase1.Kernel.{Kernel, Step}
use small_os_simulator.Phase1.Critical.{downed, upped}

-- The process that a round of `P1_P` on semaphore `m` blocks, if its value is 0.
abbrev pub comes : ℕ → Kernel → List ℤ
comes m k = if ltb 0 (sem k.sems m).value then [] else get_pid k.sched ∷ []

-- The process that `P1_V` wakes, if one waits.
abbrev pub wakes : List ℤ → List ℤ
wakes [] = []
wakes (pid ∷ rest) = pid ∷ []

-- A run from the kernel `k`: the pids that calls of `P1_V` on semaphore `m` have woken, and the pids
-- that rounds of `P1_P` on it have blocked, each in the order of time. Between them, the kernel makes
-- any steps that leave the semaphore as it is, the dispatches of both operations among them.
pub data Served (c : Config) (wrapper m : ℕ) (k : Kernel) : List ℤ → List ℤ → Kernel → Type 0 where
  start : Served c wrapper m k [] [] k
  downs :
      {woke came : List ℤ} {l : Kernel}
      → Served c wrapper m k woke came l
      → valid_sid (pos m) l.sems ≡ some m
      → Served c wrapper m k woke (came ++ comes m l) (downed c m l)
  ups :
      {woke came : List ℤ} {l : Kernel}
      → Served c wrapper m k woke came l
      → valid_sid (pos m) l.sems ≡ some m
      → Served c wrapper m k (woke ++ wakes (sem l.sems m).head) came (upped c m l)
  elsewhere :
      {woke came : List ℤ} {l l' : Kernel}
      → Served c wrapper m k woke came l
      → Step c wrapper l l'
      → sem l'.sems m ≡ sem l.sems m
      → Served c wrapper m k woke came l'
