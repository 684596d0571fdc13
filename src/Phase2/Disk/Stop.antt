-- ===== src/Phase2/Disk/Stop.antt =====
-- `P2DiskShutdown` of phase2c.c up to its waits for the drivers, and behind them up to its joins.
pub mod Empty
use small_os_simulator.Common.{
  ℕ, ◌+◌, Bool, true, ◌&&◌, Option, none, some, List, [], ◌∷◌, if◌then◌else◌, ℤ, pos,
}
use small_os_simulator.Phase1.Types.{Config, Name}
use small_os_simulator.Phase1.Sems.{Sem}
use small_os_simulator.Phase2.Links.{Ptr, Links, is_null, insert, free_all}
use small_os_simulator.Phase2.Disk.Driver.{Job, abort}
use small_os_simulator.Phase2.Calls.{◌>>=◌, make, unmake}

-- `freeAllRequestQueue`, and the request to end put into the queue at the address that `malloc` gives.
-- None where the code follows a pointer to no node.
unfoldable pub stop_queue : ℕ → Ptr → Links Job → Option (Links Job)
stop_queue fuel fresh q = elim (free_all fuel q) [
  | none ↦ none
  | some q' ↦ elim (insert fresh (some abort) q') [ none ↦ none | some (ok, q'') ↦ some q'' ]
]

-- P2_DISKShutdown_SEMAPHORE_ and the digit.
abbrev pub stop_name : ℕ → Name
stop_name i =
    80
    ∷ 50
    ∷ 95
    ∷ 68
    ∷ 73
    ∷ 83
    ∷ 75
    ∷ 83
    ∷ 104
    ∷ 117
    ∷ 116
    ∷ 100
    ∷ 111
    ∷ 119
    ∷ 110
    ∷ 95
    ∷ 83
    ∷ 69
    ∷ 77
    ∷ 65
    ∷ 80
    ∷ 72
    ∷ 79
    ∷ 82
    ∷ 69
    ∷ 95
    ∷ (48 + i)
    ∷ []

-- What `P2DiskShutdown` has done when it waits for the drivers: the semaphores, the table of them and the
-- queues of the two units. `malloc` gives the addresses.
unfoldable pub shutdown :
    Config
    → ℕ
    → Ptr × Ptr
    → Links Job × Links Job
    → List Sem
    → Option ((ℕ × ℕ) × List Sem × Links Job × Links Job)
unfolding stop_queue
shutdown c fuel fresh q sems = do
  (first, one_made) ← make c (stop_name 1) 0 sems
  (second, made) ← make c (stop_name 2) 0 one_made
  q0 ← stop_queue fuel fresh.0 q.0
  q1 ← stop_queue fuel fresh.1 q.1
  some ((first, second), made, q0, q1)

-- The assertions on the two pointers of a queue.
abbrev pub is_drained : Links Job → Bool
is_drained q = is_null q.head && is_null q.tail

-- From its waits on, up to its joins: it frees the semaphores, and the queues must be empty.
unfoldable pub drained : ℕ × ℕ → Links Job × Links Job → List Sem → Option (List Sem)
drained sids q sems = do
  one_freed ← unmake (pos sids.0) sems
  freed ← unmake (pos sids.1) one_freed
  if is_drained q.0 && is_drained q.1 then some freed else none
