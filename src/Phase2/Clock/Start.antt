-- ===== src/Phase2/Clock/Start.antt =====
-- `P2ClockInit` of phase2b.c up to the dispatch of its fork, with the `P2ProcInit` that it calls, and the
-- end of `P2ClockShutdown`. The mode check is not in the model.
pub mod Clear
pub mod Stop
use small_os_simulator.Common.{ℕ, suc, ◌++◌, false, Option, none, some, List, [], ◌∷◌, ℤ, pos}
use small_os_simulator.Phase1.Types.{Config, Name}
use small_os_simulator.Phase1.Processes.{ForkArgs, Forked, fork}
use small_os_simulator.Phase1.Kernel.{Kernel}
use small_os_simulator.Phase1.Sems.{Sem}
use small_os_simulator.Phase2.Clock.{Sleeper, clear_sleepers}
use small_os_simulator.Phase2.Syscalls.{Stub, Numbers, install, init_handlers, clock_calls}
use small_os_simulator.Phase2.Calls.{◌>>=◌, make, unmake, decimal}

-- P2B_SPInfoArray_semaphore_ and the number.
abbrev pub sleeper_name : ℕ → Name
sleeper_name i =
    (80 ∷ 50 ∷ 66 ∷ 95 ∷ 83 ∷ 80 ∷ 73 ∷ 110 ∷ 102 ∷ 111 ∷ 65 ∷ 114 ∷ 114 ∷ 97 ∷ 121 ∷ 95 ∷ 115 ∷ 101
      ∷ 109 ∷ 97 ∷ 112 ∷ 104 ∷ 111 ∷ 114 ∷ 101 ∷ 95 ∷ [])
    ++ decimal i

-- P2B_SPInfoArray_Mutex_Semaphore
abbrev pub table_name : Name
table_name =
    80 ∷ 50 ∷ 66 ∷ 95 ∷ 83 ∷ 80 ∷ 73 ∷ 110 ∷ 102 ∷ 111 ∷ 65 ∷ 114 ∷ 114 ∷ 97 ∷ 121 ∷ 95 ∷ 77 ∷ 117
    ∷ 116 ∷ 101 ∷ 120 ∷ 95 ∷ 83 ∷ 101 ∷ 109 ∷ 97 ∷ 112 ∷ 104 ∷ 111 ∷ 114 ∷ 101 ∷ []

-- The loop over `SPInfoArray` from index `i` on; none where the assertion fails.
unfoldable pub clock_sems : Config → ℕ → List Sleeper → List Sem → Option (List Sleeper × List Sem)
clock_sems c i [] sems = some ([], sems)
clock_sems c i (x ∷ xs) sems = do
  (k, made) ← make c (sleeper_name i) 0 sems
  (rest, all_made) ← clock_sems c (suc i) xs made
  some (record x { is_being_used = false; sem_id = pos k } ∷ rest, all_made)

-- The arguments of the fork, with the address of `ClockDriver`; the name is phase2b_clock_driver.
abbrev pub driver_args : Config → ℕ → ForkArgs
driver_args c driver = record {
  name = some (
      112 ∷ 104 ∷ 97 ∷ 115 ∷ 101 ∷ 50 ∷ 98 ∷ 95 ∷ 99 ∷ 108 ∷ 111 ∷ 99 ∷ 107 ∷ 95 ∷ 100 ∷ 114 ∷ 105
      ∷ 118 ∷ 101 ∷ 114 ∷ []);
  func = driver;
  arg = 0;
  stacksize = pos c.min_stack;
  priority = pos 2;
  tag = pos 0;
}

-- `SPInfoArray` and `P2B_SPInfoArray_MutexSemId`.
pub record Clock : Type 0 where
  pub table : List Sleeper
  pub mutex : ℕ

-- The data of `P2ClockInit`.
unfoldable pub clock_data : Config → List Sleeper → List Sem → Option (Clock × List Sem)
unfolding clock_sems
clock_data c table sems = do
  (xs, made) ← clock_sems c 0 table sems
  (mutex, all_made) ← make c table_name 1 made
  some (record { table = xs; mutex = mutex }, all_made)

-- `P2ClockInit` up to the dispatch of its fork; none where an assertion fails.
unfoldable pub clock_init :
    Config
    → ℕ
    → ℕ
    → ℕ
    → Numbers
    → List (Option Stub)
    → List Sleeper
    → Kernel
    → Option (Clock × List (Option Stub) × List Sem × Forked)
unfolding clock_data
clock_init c wrapper driver most n old table k = do
  cleared ← init_handlers most n old
  (clock, sems) ← clock_data c table k.sems
  handlers ← install most (clock_calls n) cleared
  some (clock, handlers, sems, fork c wrapper (driver_args c driver) k.sched k.contexts)

-- `P2ClockShutdown` from the loop on; none where an assertion fails.
unfoldable pub clock_stop : Clock → List Sem → Option (Clock × List Sem)
clock_stop k sems = do
  (xs, freed) ← clear_sleepers k.table sems
  all_freed ← unmake (pos k.mutex) freed
  some (record k { table = xs }, all_freed)
