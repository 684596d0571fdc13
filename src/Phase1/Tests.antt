-- ===== src/Phase1/Tests.antt =====
-- The theorems of phase 1 at concrete inputs, and runs of its functions.
use small_os_simulator.Common.{
  ℕ, zero, suc, ◌≡◌, refl, true, false, some, List, [], ◌∷◌, arith, find_index, pos, minus_one,
}
use small_os_simulator.Phase1.Types.{Config, Code, State, Pcb, Sched, blank}
use small_os_simulator.Phase1.Types.{same_name}
use small_os_simulator.Phase1.Queue.{count, remove_by_pid, insert, position, swap, shift}
use small_os_simulator.Phase1.Queue.Counts.{remove_by_pid_lem}
use small_os_simulator.Phase1.Procs.{
  dispatch, set_state, get_pid, proc, enter_state, requeue, hand_over, highest_index,
}
use small_os_simulator.Phase1.Procs.Valid.{IsValid, weight}
use small_os_simulator.Phase1.Processes.{ForkArgs, created, fork, quit, forget_child}
use small_os_simulator.Phase1.Processes.Fork.{ForkedWell, fork-ForkedWell}
use small_os_simulator.Phase1.Processes.{leaves, retire, notify, reparent}
use small_os_simulator.Phase1.Procs.{set_known}
use small_os_simulator.Phase1.Processes.Gone.{HasQuit, quit-HasQuit}
use small_os_simulator.Phase1.Contexts.{
  Contexts, blank_context, context_init, allocate_page_table, context_create,
}
use small_os_simulator.Phase1.Contexts.Laws.{Creates, context_create-Creates}
use small_os_simulator.Phase1.Sems.{Sem}
use small_os_simulator.Phase1.Procs.SetState.{set_state-IsValid}
use small_os_simulator.Phase1.Procs.Dispatch.{dispatch-IsValid}
use small_os_simulator.Phase1.Procs.Highest.{RunsHighest, dispatch-RunsHighest}
use small_os_simulator.Phase1.Procs.Turns.{dispatch_round_robin}
use small_os_simulator.Phase1.Processes.{get_child_status}
use small_os_simulator.Phase1.Join.Status.{Reaped, get_child_status_lem}
use small_os_simulator.Phase1.Kernel.{Kernel, quits, dispatches, Reach, here, next}
use small_os_simulator.Phase1.Kernel.Reachable.{Reach-Sound}
use small_os_simulator.Phase1.Sems.{blank_sem, sem_create, sem_scan, sem_claim}
use small_os_simulator.Phase1.Sems.Create.{UniqueNames, Created, sem_create-UniqueNames}
use small_os_simulator.Phase1.Devices.{Devices}
use small_os_simulator.Phase1.Startup.{startup}
use small_os_simulator.Phase1.Startup.Boot.{startup-Sound, childless-Family}
use small_os_simulator.Phase1.Kernel.Sound.{Sound, Waits}

abbrev config : Config
config = record { max_proc = 3; max_sem = 2; max_name = 5; min_stack = 10 }

abbrev low : Pcb
low = record blank { name = 65 ∷ []; is_being_used = true; state = State.running; priority = 3 }

abbrev high : Pcb
high = record blank { name = 66 ∷ []; is_being_used = true; state = State.ready; priority = 2 }

-- Process 0 runs at priority 3; process 1 waits at priority 2; slot 2 is free.
abbrev two : Sched
two = record {
  procs = low ∷ high ∷ blank ∷ [];
  queue = record { pid = 0; priority = 3 } ∷ record { pid = 1; priority = 2 } ∷ [];
  is_first = false;
}

two_listed : (pid : ℕ) → count pid two.queue ≡ weight (proc two pid)
unfolding count
two_listed zero = refl
two_listed (suc zero) = refl
two_listed (suc (suc zero)) = refl
two_listed (suc (suc (suc n))) = ground arith

two-IsValid : IsValid config two
two-IsValid = record { sized = refl; listed = two_listed; priced = (refl, (refl, tt)) }

-- Process 1 has taken over from process 0.
abbrev switched : Sched
switched = record {
  procs = record low { state = State.ready } ∷ record high { state = State.running } ∷ blank ∷ [];
  queue = record { pid = 1; priority = 2 } ∷ record { pid = 0; priority = 3 } ∷ [];
  is_first = false;
}

dispatch-two : dispatch config false two ≡ some switched
unfolding dispatch set_state enter_state requeue hand_over insert position highest_index swap
dispatch-two = refl

dispatch-RunsHighest_example : RunsHighest switched
dispatch-RunsHighest_example = dispatch-RunsHighest false two-IsValid dispatch-two

dispatch-IsValid_example : IsValid config switched
dispatch-IsValid_example = dispatch-IsValid false two-IsValid dispatch-two

set_state-IsValid_example : IsValid config (set_state config (pos 0) State.blocked (pos 1) two).1
set_state-IsValid_example = set_state-IsValid (pos 0) State.blocked (pos 1) two-IsValid

-- Two processes of priority 2, the first running.
abbrev equals : Sched
equals = record {
  procs = record high { state = State.running } ∷ high ∷ blank ∷ [];
  queue = record { pid = 0; priority = 2 } ∷ record { pid = 1; priority = 2 } ∷ [];
  is_first = false;
}

equals_listed : (pid : ℕ) → count pid equals.queue ≡ weight (proc equals pid)
unfolding count
equals_listed zero = refl
equals_listed (suc zero) = refl
equals_listed (suc (suc zero)) = refl
equals_listed (suc (suc (suc n))) = ground arith

equals-IsValid : IsValid config equals
equals-IsValid = record { sized = refl; listed = equals_listed; priced = (refl, (refl, tt)) }

abbrev turned : Sched
turned = record {
  procs = record high { state = State.ready } ∷ record high { state = State.running } ∷ blank ∷ [];
  queue = record { pid = 1; priority = 2 } ∷ record { pid = 0; priority = 2 } ∷ [];
  is_first = false;
}

dispatch-equals : dispatch config true equals ≡ some turned
unfolding dispatch set_state enter_state requeue hand_over insert position highest_index swap shift
dispatch-equals = refl

dispatch_round_robin_example :
    turned.queue ≡ record { pid = 1; priority = 2 } ∷ record { pid = 0; priority = 2 } ∷ []
dispatch_round_robin_example =
    dispatch_round_robin config false equals.procs (record { pid = 0; priority = 2 })
      (record { pid = 1; priority = 2 }) [] equals-IsValid (refl, tt) dispatch-equals

-- A process of priority 4 that process 0 forks: it takes slot 2 and waits.
abbrev args : ForkArgs
args = record {
  name = some (67 ∷ []);
  func = 9;
  arg = 0;
  stacksize = pos 20;
  priority = pos 4;
  tag = pos 0;
}

abbrev no_contexts : Contexts
no_contexts = record {
  slots = blank_context ∷ blank_context ∷ blank_context ∷ [];
  cid = minus_one;
  calls = [];
}

abbrev one_context : Contexts
one_context = record no_contexts {
  slots =
      record { start_func = 7; start_arg = 0; is_being_used = true; stack = pos 20 }
      ∷ blank_context
      ∷ blank_context
      ∷ [];
  calls = context_init 0 (pos 20) ∷ allocate_page_table 0 ∷ [];
}

abbrev child : Pcb
child = record blank {
  name = 67 ∷ [];
  priority = 4;
  func = 9;
  is_being_used = true;
  sid = minus_one;
  state = State.running;
}

abbrev three : Sched
three = record {
  procs = record low { children = 2 ∷ [] } ∷ high ∷ child ∷ [];
  queue =
      record { pid = 0; priority = 3 }
      ∷ record { pid = 1; priority = 2 }
      ∷ record { pid = 2; priority = 4 }
      ∷ [];
  is_first = false;
}

fork-two : fork config 7 args two no_contexts ≡ created 2 false three one_context
unfolding fork insert position find_index same_name context_create
fork-two = refl

fork-ForkedWell_example : ForkedWell config args two 2 three
fork-ForkedWell_example = fork-ForkedWell 7 args no_contexts two-IsValid fork-two

-- Process 0 joins, and its child, process 1, runs.
abbrev family : Sched
family = record {
  procs =
      record low { state = State.joining; children = 1 ∷ [] }
      ∷ record high { state = State.running; parent = pos 0 }
      ∷ blank
      ∷ [];
  queue = record { pid = 1; priority = 2 } ∷ [];
  is_first = false;
}

family_listed : (pid : ℕ) → count pid family.queue ≡ weight (proc family pid)
unfolding count
family_listed zero = refl
family_listed (suc zero) = refl
family_listed (suc (suc zero)) = refl
family_listed (suc (suc (suc n))) = ground arith

family-IsValid : IsValid config family
family-IsValid = record { sized = refl; listed = family_listed; priced = (refl, tt) }

-- What the child's quitting leaves: the parent is ready and queued.
abbrev orphaned : Sched
orphaned = record {
  procs =
      record low { state = State.ready; quit_children = 1 ∷ [] }
      ∷ record high { state = State.quit; parent = pos 0; status = pos 5 }
      ∷ blank
      ∷ [];
  queue = record { pid = 0; priority = 3 } ∷ [];
  is_first = false;
}

family_runs : get_pid family ≡ pos 1
unfolding get_pid find_index
family_runs = refl

quit-family : quit config (pos 1) (pos 5) family ≡ leaves orphaned
unfolding quit retire notify reparent forget_child set_state set_known enter_state requeue insert
    remove_by_pid position find_index shift
quit-family = refl

quit-HasQuit_example : HasQuit 1 (pos 5) orphaned × (count 1 orphaned.queue ≡ 0)
quit-HasQuit_example = quit-HasQuit 1 (pos 5) family-IsValid family_runs quit-family

context_create-Creates_example : Creates 7 0 (pos 20) no_contexts 0 one_context
unfolding context_create find_index
context_create-Creates_example = context_create-Creates config 7 0 (pos 20) no_contexts refl

remove_by_pid_lem_example : remove_by_pid 0 two.queue ≡ record { pid = 1; priority = 2 } ∷ []
remove_by_pid_lem_example = remove_by_pid_lem 0 two.queue

-- A semaphore of value 0 on which process 1 waits, and one of value 2.
abbrev sems : List Sem
sems =
    record { name = 83 ∷ []; value = 0; is_being_used = true; head = pos 1 ∷ [] }
    ∷ record { name = 84 ∷ []; value = 2; is_being_used = true; head = [] }
    ∷ []

get_child_status_lem_example :
    let (code, child, t, y) = get_child_status (pos 0) orphaned no_contexts in
    (code ≡ Code.success) × (child ≡ some (1, pos 5)) × Reaped orphaned 1 [] t
get_child_status_lem_example =
    get_child_status_lem (pos 0) orphaned no_contexts [] 1 [] refl refl tt refl (omega arith)
      (omega arith) (omega arith)

-- A semaphore on which nobody waits.
abbrev idle_sems : List Sem
idle_sems = record { name = 84 ∷ []; value = 2; is_being_used = true; head = [] } ∷ []

-- The child of `family` quits, and its parent is dispatched.
abbrev kernel : Kernel
kernel = record { sched = family; contexts = no_contexts; sems = idle_sems }

abbrev resumed : Sched
resumed = record orphaned {
  procs =
      record low { quit_children = 1 ∷ [] }
      ∷ record high { state = State.quit; parent = pos 0; status = pos 5 }
      ∷ blank
      ∷ [];
}

kernel_runs : Reach config 7 kernel (record kernel { sched = resumed })
unfolding get_pid find_index dispatch
kernel_runs = next (next here (quits (pos 5) quit-family)) (dispatches false refl)

family_entries : (i : ℕ) → (proc family i).quit_children ≡ []
family_entries zero = refl
family_entries (suc zero) = refl
family_entries (suc (suc zero)) = refl
family_entries (suc (suc (suc i))) = refl

kernel-Waits : Waits family idle_sems
kernel-Waits zero used = (tt, tt)
kernel-Waits (suc i) used = absurd cc

kernel-Sound : Sound config kernel
kernel-Sound = record {
  valid = family-IsValid;
  family = childless-Family family family_entries;
  waits = kernel-Waits;
}

Reach-Sound_example : Sound config (record kernel { sched = resumed })
Reach-Sound_example = Reach-Sound kernel-Sound kernel_runs

-- A semaphore in use and a free slot.
abbrev one_sem : List Sem
one_sem = record { name = 83 ∷ []; value = 0; is_being_used = true; head = [] } ∷ blank_sem ∷ []

one_sem-UniqueNames : UniqueNames one_sem
unfolding same_name
one_sem-UniqueNames zero zero ne lti ltj used = absurd (ne refl)
one_sem-UniqueNames zero (suc zero) ne lti ltj used = refl
one_sem-UniqueNames zero (suc (suc j)) ne lti ltj used = refl
one_sem-UniqueNames (suc zero) j ne lti ltj used = cc
one_sem-UniqueNames (suc (suc i)) j ne lti ltj used = cc

abbrev two_sems : List Sem
two_sems =
    record { name = 83 ∷ []; value = 0; is_being_used = true; head = [] }
    ∷ record { name = 84 ∷ []; value = 2; is_being_used = true; head = [] }
    ∷ []

two_sems_made : sem_create config (some (84 ∷ [])) 2 one_sem ≡ (Code.success, some 1, two_sems)
unfolding sem_create sem_scan sem_claim same_name
two_sems_made = refl

sem_create-UniqueNames_example :
    Created config (84 ∷ []) 2 one_sem 1 two_sems × UniqueNames two_sems
sem_create-UniqueNames_example =
    sem_create-UniqueNames (84 ∷ []) 2 one_sem one_sem-UniqueNames two_sems_made

-- Statics before the start, with room for names.
abbrev long_names : Config
long_names = record config { max_name = 20 }

abbrev off : Kernel
off = record {
  sched = record two { queue = []; is_first = true };
  contexts = no_contexts;
  sems = one_sem;
}

abbrev devices : Devices
devices = record { sems = []; statuses = []; ok_to_abort = false }

off_childless : (i : ℕ) → (proc off.sched i).quit_children ≡ []
off_childless zero = refl
off_childless (suc zero) = refl
off_childless (suc (suc zero)) = refl
off_childless (suc (suc (suc i))) = refl

startup-Sound_example :
    (t : Sched) × (y : Contexts) × ((startup long_names 7 9 off devices).0 ≡ created 0 true t y)
    × ((l : Kernel)
        → Reach long_names 7
            (record { sched = t; contexts = y; sems = (startup long_names 7 9 off devices).2 })
            l
        → Sound long_names l)
startup-Sound_example =
    startup-Sound long_names 7 9 off devices refl (omega arith) (omega arith) (omega arith) refl
      refl off_childless
