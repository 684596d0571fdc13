-- ===== src/Phase1/Procs/Valid.antt =====
-- The invariant that ties the dispatch queue to the process table.
use small_os_simulator.Common.{
  ℕ, ◌≤◌, ◌<◌, ◌≡◌, ◌∙◌, Bool, true, false, ◌&&◌, List, arith, length, get_or, All, get_or_out,
  if◌then◌else◌,
}
use small_os_simulator.Phase1.Types.{Config, State, Pcb, Node, Sched, blank}
use small_os_simulator.Phase1.Queue.{count}
use small_os_simulator.Phase1.Queue.Room.{length-lt}
use small_os_simulator.Phase1.Procs.{proc}

-- States in which a process stands in the dispatch queue.
abbrev pub runnable : State → Bool
runnable State.running = true
runnable State.ready = true
runnable _ = false

-- How often a process should stand in the dispatch queue.
abbrev pub weight : Pcb → ℕ
weight p = if p.is_being_used && runnable p.state then 1 else 0

-- A queue entry carries the priority of its process.
abbrev pub Priced : List Pcb → Node → Type 0
Priced procs n = (get_or procs n.pid blank).priority ≡ n.priority

pub record IsValid (c : Config) (s : Sched) : Type 0 where
  pub sized : length s.procs ≡ c.max_proc
  pub listed : (pid : ℕ) → count pid s.queue ≡ weight (proc s pid)
  pub priced : All (Priced s.procs) s.queue

module _ {c : Config} {s : Sched} (v : IsValid c s) where
  -- A pid outside the table is not queued.
  pub count_out : (j : ℕ) → c.max_proc ≤ j → count j s.queue ≡ 0
  count_out j h = ground (arith, v.listed j, v.sized, get_or_out s.procs j blank)

  pub count-le_one : (j : ℕ) → count j s.queue ≤ 1
  count-le_one j = ground (arith, v.listed j)

  -- While a process of the table is not queued, the queue has room.
  pub room : (pid : ℕ) → pid < c.max_proc → weight (proc s pid) ≡ 0 → length s.queue < c.max_proc
  room pid lt e = length-lt c.max_proc pid s.queue count_out count-le_one lt (v.listed pid ∙ e)
