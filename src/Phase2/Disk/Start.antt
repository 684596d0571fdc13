-- ===== src/Phase2/Disk/Start.antt =====
-- `P2DiskInit` of phase2c.c: the semaphores of the queues, the stubs that it installs and the fork of the
-- first driver, up to its dispatch; and what it keeps of the sizes that the disks report. The mode check
-- is not in the model.
use small_os_simulator.Common.{ℕ, ◌+◌, Option, none, some, List, [], ◌∷◌, pos}
use small_os_simulator.Phase1.Types.{Config, Name}
use small_os_simulator.Phase1.Processes.{ForkArgs, Forked, fork}
use small_os_simulator.Phase1.Kernel.{Kernel}
use small_os_simulator.Phase1.Sems.{Sem}
use small_os_simulator.Phase2.Disk.{Code}
use small_os_simulator.Phase2.Syscalls.{Stub, Numbers, install, disk_calls}
use small_os_simulator.Phase2.Calls.{◌>>=◌, make}

-- `diskRequestQueueMutex` and `IsDiskRequestQueueReady`, with an entry for each unit.
pub record QueueSems : Type 0 where
  pub mutex : ℕ × ℕ
  pub ready : ℕ × ℕ

-- P2C_DISK_REQUEST_QUEUE_, the digit, and _MUTEX.
abbrev pub mutex_name : ℕ → Name
mutex_name i =
    80
    ∷ 50
    ∷ 67
    ∷ 95
    ∷ 68
    ∷ 73
    ∷ 83
    ∷ 75
    ∷ 95
    ∷ 82
    ∷ 69
    ∷ 81
    ∷ 85
    ∷ 69
    ∷ 83
    ∷ 84
    ∷ 95
    ∷ 81
    ∷ 85
    ∷ 69
    ∷ 85
    ∷ 69
    ∷ 95
    ∷ (48 + i)
    ∷ 95
    ∷ 77
    ∷ 85
    ∷ 84
    ∷ 69
    ∷ 88
    ∷ []

-- P2C_DISK_REQUEST_QUEUE_, the digit, and _READY.
abbrev pub ready_name : ℕ → Name
ready_name i =
    80
    ∷ 50
    ∷ 67
    ∷ 95
    ∷ 68
    ∷ 73
    ∷ 83
    ∷ 75
    ∷ 95
    ∷ 82
    ∷ 69
    ∷ 81
    ∷ 85
    ∷ 69
    ∷ 83
    ∷ 84
    ∷ 95
    ∷ 81
    ∷ 85
    ∷ 69
    ∷ 85
    ∷ 69
    ∷ 95
    ∷ (48 + i)
    ∷ 95
    ∷ 82
    ∷ 69
    ∷ 65
    ∷ 68
    ∷ 89
    ∷ []

-- The four semaphores; none where an assertion fails.
unfoldable pub disk_sems : Config → List Sem → Option (QueueSems × List Sem)
disk_sems c sems = do
  (mutex0, s1) ← make c (mutex_name 1) 1 sems
  (mutex1, s2) ← make c (mutex_name 2) 1 s1
  (ready0, s3) ← make c (ready_name 1) 0 s2
  (ready1, s4) ← make c (ready_name 2) 0 s3
  some (record { mutex = (mutex0, mutex1); ready = (ready0, ready1) }, s4)

-- The arguments of the fork of the driver for a unit; `driver` is the address of `DiskDriver`, and its name
-- is phase2c_disk_driver_ and the digit.
abbrev pub driver_args : Config → ℕ → ℕ → ForkArgs
driver_args c driver unit = record {
  name = some (
      112
      ∷ 104
      ∷ 97
      ∷ 115
      ∷ 101
      ∷ 50
      ∷ 99
      ∷ 95
      ∷ 100
      ∷ 105
      ∷ 115
      ∷ 107
      ∷ 95
      ∷ 100
      ∷ 114
      ∷ 105
      ∷ 118
      ∷ 101
      ∷ 114
      ∷ 95
      ∷ (48 + unit)
      ∷ []);
  func = driver;
  arg = unit;
  stacksize = pos c.min_stack;
  priority = pos 2;
  tag = pos 0;
}

-- `P2DiskInit` up to the dispatch of its first fork; none where an assertion fails. `most` is
-- USLOSS_MAX_SYSCALLS.
unfoldable pub disk_init :
    Config
    → ℕ
    → ℕ
    → ℕ
    → Numbers
    → List (Option Stub)
    → Kernel
    → Option (QueueSems × List (Option Stub) × List Sem × Forked)
unfolding disk_sems
disk_init c wrapper driver most n table k = do
  (made, sems) ← disk_sems c k.sems
  handlers ← install most (disk_calls n) table
  some (made, handlers, sems, fork c wrapper (driver_args c driver 0) k.sched k.contexts)

-- What `P2DiskInit` leaves in an entry of `diskSize`, none for -1, from the code of `P2_DiskSize` and the
-- number of tracks that stands there after it.
unfoldable pub keep_size : Code → ℕ → Option ℕ
keep_size Code.invalid_unit tracks = none
keep_size code tracks = some tracks
