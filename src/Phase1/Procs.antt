-- ===== src/Phase1/Procs.antt =====
-- Process states and the scheduler of phase1b.c: `P1_GetPid`, `P1SetState`, the choice that
-- `P1Dispatch` makes, and `P1_GetProcInfo`. The functions act on the statics as they stand with
-- interrupts off; the mode check and the interrupt switches around them are not in the model.
pub mod Valid
pub mod SetState
pub mod Start
pub mod Best
pub mod Moves
pub mod Dispatch
pub mod Highest
pub mod Turns
pub mod Keeps
use small_os_simulator.Common.{
  ℕ, suc, ◌+◌, Bool, true, false, not, ◌&&◌, ◌||◌, Option, none, some, List, [], ◌∷◌, ltb,
  if◌then◌else◌, length, get_or, set, find_index, ℤ, pos, minus_one, index,
}
use small_os_simulator.Phase1.Types.{
  Config, Code, State, Pcb, Node, Sched, Name, blank, blank_node, is_running, is_ready, is_joining,
  is_blocked,
}
use small_os_simulator.Phase1.Queue.{insert, swap, shift, remove_by_pid}

abbrev pub proc : Sched → ℕ → Pcb
proc s pid = get_or s.procs pid blank

-- The `pid` of `dispatchQueue[0]`.
abbrev pub current : Sched → ℕ
current s = (get_or s.queue 0 blank_node).pid

unfoldable pub clear_procs : List Pcb → List Pcb
clear_procs [] = []
clear_procs (p ∷ ps) = record p { is_being_used = false } ∷ clear_procs ps

-- `P1ProcInit`, after `P1ContextInit`.
unfoldable pub proc_init : Sched → Sched
unfolding clear_procs
proc_init s = record s { procs = clear_procs s.procs }

abbrev pub runs : Pcb → Bool
runs p = p.is_being_used && is_running p.state

-- `P1_GetPid`: the first process in state running, or -1.
unfoldable pub get_pid : Sched → ℤ
get_pid s = let i = find_index runs s.procs in if ltb i (length s.procs) then pos i else minus_one

-- The states that `P1SetState` takes.
abbrev pub settable : State → Bool
settable State.free = false
settable State.running = false
settable _ = true

abbrev pub put_proc : Sched → ℕ → Pcb → Sched
put_proc s pid p = record s { procs = set s.procs pid p }

-- The queue after the state of a process is set: a ready process is queued, any other is not.
unfoldable pub requeue : ℕ → ℕ → ℕ → State → List Node → List Node
requeue max_proc pid priority state q =
    if is_ready state then (insert max_proc pid priority q).1 else remove_by_pid pid q

-- The innermost branch of `P1SetState`.
unfoldable pub enter_state : Config → ℕ → State → ℤ → Sched → Sched
enter_state c pid state sid s = record s {
  procs =
      set s.procs pid (record p { state = state; sid = if is_blocked state then sid else p.sid });
  queue = requeue c.max_proc pid p.priority state s.queue;
}
  where
    p : Pcb
    p = proc s pid

-- `P1SetState` at an index of the table.
unfoldable pub set_known : Config → ℕ → State → ℤ → Sched → Code × Sched
set_known c i state sid s =
    if (proc s i).is_being_used
    then (if is_joining state && ltb 0 (length (proc s i).quit_children)
        then (Code.child_quit, s)
        else (Code.success, enter_state c i state sid s))
    else (Code.invalid_pid, s)

-- `P1SetState`
unfoldable pub set_state : Config → ℤ → State → ℤ → Sched → Code × Sched
unfolding set_known
set_state c pid state sid s =
    if settable state
    then elim (index c.max_proc pid) [
      | none ↦ (Code.invalid_pid, s)
      | some i ↦ set_known c i state sid s
    ]
    else (Code.invalid_state, s)

abbrev pub mark : Sched → ℕ → State → Sched
mark s pid state = put_proc s pid (record (proc s pid) { state = state })

-- The loop over `dispatchQueue[i..]` that looks for the least priority number, from the best so far.
unfoldable pub best_from : ℕ → ℕ → ℕ → List Node → ℕ
best_from i best priority [] = best
best_from i best priority (n ∷ q) =
    best_from (suc i) (if ltb n.priority priority then i else best)
      (if ltb n.priority priority then n.priority else priority) q

-- `highestIndex`: the first entry after the head with the least priority number (-1 never
-- survives the loop, as the queue has two entries).
unfoldable pub highest_index : List Node → ℕ
unfolding best_from
highest_index [] = 0
highest_index (n ∷ []) = 0
highest_index (n ∷ m ∷ q) = best_from 2 1 m.priority q

-- `next` runs, and `old` becomes ready.
unfoldable pub hand_over : Config → ℕ → ℕ → Sched → Sched
hand_over c next old s = (set_state c (pos old) State.ready (pos 0) (mark s next State.running)).1

-- The entry at `highest` is swapped with the head and runs; the former head becomes ready.
unfoldable pub preempt : Config → ℕ → Sched → Sched
preempt c highest s =
    let swapped = record s { queue = swap 0 highest s.queue } in
    hand_over c (current swapped) (get_or swapped.queue highest blank_node).pid swapped

abbrev pub best_priority : List Node → ℕ
best_priority q = (get_or q (highest_index q) blank_node).priority

abbrev pub head_priority : List Node → ℕ
head_priority q = (get_or q 0 blank_node).priority

-- The last branch of `P1Dispatch`: the head goes to the end of the queue.
unfoldable pub rotate_to : Config → ℕ → Sched → Sched
unfolding preempt
rotate_to c highest s =
    let next = preempt c highest s in record next { queue = shift highest next.queue }

-- The choice of `P1Dispatch`, once the loop has found entry `highest`.
unfoldable pub choose_at : Config → Bool → ℕ → Sched → Sched
unfolding preempt rotate_to
choose_at c rotate highest s =
    let best = (get_or s.queue highest blank_node).priority in
    if ltb best (head_priority s.queue)
    then preempt c highest s
    else if not rotate || ltb (head_priority s.queue) best
    then mark s (current s) State.running
    else rotate_to c highest s

-- The part of `P1Dispatch` after the two early cases, up to the context switch.
unfoldable pub choose : Config → Bool → Sched → Sched
unfolding choose_at
choose c rotate s = choose_at c rotate (highest_index s.queue) s

-- `P1Dispatch` up to the context switch to the process at the head of the queue; none where no
-- process can run and it halts.
unfoldable pub dispatch : Config → Bool → Sched → Option Sched
unfolding choose
dispatch c rotate s = elim s.queue [
  | [] ↦ none
  | n ∷ q ↦ elim q [
    | [] ↦ some (mark s (current s) State.running)
    | _ ∷ _ ↦ some (choose c rotate s)
  ]
]

-- `P1_ProcInfo`
pub record ProcInfo : Type 0 where
  pub name : Name
  pub state : State
  pub sid : ℤ
  pub priority : ℕ
  pub tag : ℕ
  pub cpu : ℕ
  pub parent : ℤ
  pub children : List ℕ
  pub num_children : ℕ

-- `P1_GetProcInfo`. The pid indexes the table unchecked.
unfoldable pub get_proc_info : ℕ → Sched → Code × Option ProcInfo
get_proc_info pid s =
    if p.is_being_used
    then (
      Code.success,
      some (record {
        name = p.name;
        state = p.state;
        sid = p.sid;
        priority = p.priority;
        tag = p.tag;
        cpu = p.cpu_time;
        parent = p.parent;
        children = p.children;
        num_children = length p.children + length p.quit_children;
      }),
    )
    else (Code.invalid_pid, none)
  where
    p : Pcb
    p = proc s pid
