-- ===== src/Phase1/Kernel.antt =====
-- Phase 1 as a whole: the statics of phase1a.c, phase1b.c and phase1c.c together, and the steps that
-- the operations make on them in any order, each with interrupts off. A dispatch is a step of its
-- own.
pub mod Sound
pub mod Waiting
pub mod Reachable
use small_os_simulator.Common.{ℕ, ◌≡◌, Bool, Option, none, some, List, ℤ, get_or}
use small_os_simulator.Phase1.Types.{Config, Code, Sched, Name}
use small_os_simulator.Phase1.Procs.{get_pid, dispatch, current, proc}
use small_os_simulator.Phase1.Procs.Valid.{weight}
use small_os_simulator.Phase1.Contexts.{Contexts}
use small_os_simulator.Phase1.Processes.{ForkArgs, fork, created, quit, leaves}
use small_os_simulator.Phase1.Sems.{Sem, sem_create, sem_free, valid_sid, p_round, v_update}
use small_os_simulator.Phase1.Join.{join_round, joined, waits}

pub record Kernel : Type 0 where
  pub sched : Sched
  pub contexts : Contexts
  pub sems : List Sem

-- One operation. `wrapper` is the function that every context starts with.
pub data Step (c : Config) (wrapper : ℕ) (k : Kernel) : Kernel → Type 0 where
  forks :
      (a : ForkArgs) {i : ℕ} {d : Bool} {t : Sched} {y : Contexts}
      → fork c wrapper a k.sched k.contexts ≡ created i d t y
      → Step c wrapper k (record k { sched = t; contexts = y })
  quits :
      (status : ℤ) {t : Sched}
      → quit c (get_pid k.sched) status k.sched ≡ leaves t
      → Step c wrapper k (record k { sched = t })
  dispatches :
      (rotate : Bool) {t : Sched}
      → dispatch c rotate k.sched ≡ some t
      → Step c wrapper k (record k { sched = t })
  blocks_in_join :
      (tag : ℤ) {t : Sched} {y : Contexts}
      → join_round c tag k.sched k.contexts ≡ waits (some t) y
      → Step c wrapper k (record k { sched = t; contexts = y })
  joins :
      (tag : ℤ) {code : Code} {child : Option (ℕ × ℤ)} {t : Sched} {y : Contexts}
      → join_round c tag k.sched k.contexts ≡ joined code child t y
      → Step c wrapper k (record k { sched = t; contexts = y })
  creates :
      (name : Option Name) (value : ℕ)
      → Step c wrapper k (record k { sems = (sem_create c name value k.sems).2 })
  frees : (sid : ℤ) → Step c wrapper k (record k { sems = (sem_free sid k.sems).1 })
  downs :
      (sid : ℤ) (i : ℕ)
      → valid_sid sid k.sems ≡ some i
      → Step c wrapper k (record k {
        sched = (p_round c i k.sched k.sems).1;
        sems = (p_round c i k.sched k.sems).2;
      })
  ups :
      (sid : ℤ) (i : ℕ)
      → valid_sid sid k.sems ≡ some i
      → Step c wrapper k (record k {
        sched = (v_update c i k.sched k.sems).1;
        sems = (v_update c i k.sched k.sems).2;
      })

-- Any number of steps.
pub data Reach (c : Config) (wrapper : ℕ) (k : Kernel) : Kernel → Type 0 where
  here : Reach c wrapper k k
  next : {l m : Kernel} → Reach c wrapper k l → Step c wrapper l m → Reach c wrapper k m
