-- ===== src/Phase3/Pagers.antt =====
-- What `P3PagerInit` and `P3PagerShutdown` of phase3c.c do besides their checks: the semaphores of the
-- queue of faults, the fork of a pager up to its dispatch, and the fault that tells a pager to end, up to
-- the wait for it and behind that.
use small_os_simulator.Common.{ℕ, ◌*◌, ◌++◌, Option, some, List, [], ◌∷◌, pos}
use small_os_simulator.Phase1.Types.{Config, Name}
use small_os_simulator.Phase1.Processes.{ForkArgs, Forked, fork}
use small_os_simulator.Phase1.Kernel.{Kernel}
use small_os_simulator.Phase1.Sems.{Sem}
use small_os_simulator.Phase2.Links.{Ptr, Links}
use small_os_simulator.Phase2.Calls.{◌>>=◌, make, unmake, decimal}
use small_os_simulator.Phase3.Pager.{Cause, Fault}
use small_os_simulator.Phase3.Faults.{fault_insert, free_faults}

-- `pageFaultQueueMutex` and `isPageFaultQueueReady`.
pub record FaultSems : Type 0 where
  pub mutex : ℕ
  pub ready : ℕ

-- PHASE3C_PageFaultQueue_MUTEX
abbrev pub fault_mutex_name : Name
fault_mutex_name =
    80 ∷ 72 ∷ 65 ∷ 83 ∷ 69 ∷ 51 ∷ 67 ∷ 95 ∷ 80 ∷ 97 ∷ 103 ∷ 101 ∷ 70 ∷ 97 ∷ 117 ∷ 108 ∷ 116 ∷ 81
    ∷ 117 ∷ 101 ∷ 117 ∷ 101 ∷ 95 ∷ 77 ∷ 85 ∷ 84 ∷ 69 ∷ 88 ∷ []

-- PHASE3C_PageFaultQueue_READY_SEMAPHORE
abbrev pub fault_ready_name : Name
fault_ready_name =
    80 ∷ 72 ∷ 65 ∷ 83 ∷ 69 ∷ 51 ∷ 67 ∷ 95 ∷ 80 ∷ 97 ∷ 103 ∷ 101 ∷ 70 ∷ 97 ∷ 117 ∷ 108 ∷ 116 ∷ 81
    ∷ 117 ∷ 101 ∷ 117 ∷ 101 ∷ 95 ∷ 82 ∷ 69 ∷ 65 ∷ 68 ∷ 89 ∷ 95 ∷ 83 ∷ 69 ∷ 77 ∷ 65 ∷ 80 ∷ 72 ∷ 79
    ∷ 82 ∷ 69 ∷ []

-- P3C_PAGERS_ and the number.
abbrev pub pager_name : ℕ → Name
pager_name i = (80 ∷ 51 ∷ 67 ∷ 95 ∷ 80 ∷ 65 ∷ 71 ∷ 69 ∷ 82 ∷ 83 ∷ 95 ∷ []) ++ decimal i

-- P3C_PAGERS_KILLER_ and the number.
abbrev pub killer_name : ℕ → Name
killer_name i =
    (80 ∷ 51 ∷ 67 ∷ 95 ∷ 80 ∷ 65 ∷ 71 ∷ 69 ∷ 82 ∷ 83 ∷ 95 ∷ 75 ∷ 73 ∷ 76 ∷ 76 ∷ 69 ∷ 82 ∷ 95 ∷ [])
    ++ decimal i

-- The two semaphores of `P3PagerInit`; none where an assertion fails.
unfoldable pub fault_sems : Config → List Sem → Option (FaultSems × List Sem)
fault_sems c sems = do
  (mutex, one_made) ← make c fault_mutex_name 1 sems
  (ready, made) ← make c fault_ready_name 0 one_made
  some (record { mutex = mutex; ready = ready }, made)

-- The arguments of the fork of a pager, with the address of `Pager` and P3_PAGER_PRIORITY.
abbrev pub pager_args : Config → ℕ → ℕ → ℕ → ForkArgs
pager_args c pager priority i = record {
  name = some (pager_name i);
  func = pager;
  arg = 0;
  stacksize = pos (2 * c.min_stack);
  priority = pos priority;
  tag = pos 0;
}

-- The body of the loop of `P3PagerInit`, up to the dispatch.
unfoldable pub fork_pager : Config → ℕ → ℕ → ℕ → ℕ → Kernel → Forked
fork_pager c wrapper pager priority i k =
    fork c wrapper (pager_args c pager priority i) k.sched k.contexts

-- The body of the loop of `P3PagerShutdown` up to its wait: the semaphore to wait on, the table and the
-- queue with the fault, whose process and offset are not set. None where an assertion fails or the code
-- follows a pointer to no node.
unfoldable pub kill_pager :
    Config → ℕ → ℕ → ℕ → Ptr → Links Fault → List Sem → Option (ℕ × List Sem × Links Fault)
kill_pager c i pid offset fresh q sems = do
  (sid, made) ← make c (killer_name i) 0 sems
  (ok, q') ←
      fault_insert fresh (some (record { pid = pid; offset = offset; cause = Cause.abort })) q
  some (sid, made, q')

-- The body behind the wait, up to the join.
abbrev pub killed : ℕ → List Sem → Option (List Sem)
killed sid sems = unmake (pos sid) sems

-- `P3PagerShutdown` behind its loop.
unfoldable pub stop_faults :
    ℕ → FaultSems → Links Fault → List Sem → Option (Links Fault × List Sem)
stop_faults fuel x q sems = do
  cleared ← free_faults fuel q
  one_freed ← unmake (pos x.mutex) sems
  freed ← unmake (pos x.ready) one_freed
  some (cleared, freed)
