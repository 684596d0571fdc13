-- ===== src/Phase1/Types.antt =====
-- The constants, codes and structures of phase 1: what phase1.h and usloss.h (which the repository
-- takes from outside) name, and the structs of phase1a.c, phase1b.c and phase1c.c.
use small_os_simulator.Common.{ℕ, Bool, true, false, List, [], ◌∷◌, ℤ, pos, ◌&&◌, ◌==◌}

-- P1_MAXPROC, P1_MAXSEM, P1_MAXNAME and USLOSS_MIN_STACK: their values are not in the repository.
pub record Config : Type 0 where
  pub max_proc : ℕ
  pub max_sem : ℕ
  pub max_name : ℕ
  pub min_stack : ℕ

-- The return codes `P1_SUCCESS` and `P1_...` by name.
pub data Code : Type 0 where
  success invalid_tag invalid_priority invalid_stack name_is_null name_too_long : Code
  duplicate_name too_many_processes too_many_contexts invalid_cid invalid_pid : Code
  invalid_state child_quit no_quit no_children too_many_sems invalid_sid : Code
  blocked_processes invalid_type invalid_unit wait_aborted : Code

abbrev pub is_success : Code → Bool
is_success success = true
is_success _ = false

-- `P1_State`
pub data State : Type 0 where
  free running ready joining blocked quit : State

abbrev pub is_running : State → Bool
is_running running = true
is_running _ = false

abbrev pub is_joining : State → Bool
is_joining joining = true
is_joining _ = false

abbrev pub is_blocked : State → Bool
is_blocked blocked = true
is_blocked _ = false

abbrev pub is_ready : State → Bool
is_ready ready = true
is_ready _ = false

-- The bytes of a C string, without the terminator.
abbrev pub Name : Type 0
Name = List ℕ

-- `strcmp(a, b) == 0`
unfoldable pub same_name : Name → Name → Bool
same_name [] [] = true
same_name [] (y ∷ ys) = false
same_name (x ∷ xs) [] = false
same_name (x ∷ xs) (y ∷ ys) = x == y && same_name xs ys

-- `PCB`. `children` and `quit_children` hold the first `numChildren` and `numQuitChildren` entries of
-- the arrays. A function is known by its address.
pub record Pcb : Type 0 where
  pub cid : ℕ
  pub cpu_time : ℕ
  pub name : Name
  pub priority : ℕ
  pub state : State
  pub is_being_used : Bool
  pub parent : ℤ
  pub children : List ℕ
  pub sid : ℤ
  pub tag : ℕ
  pub func : ℕ
  pub status : ℤ
  pub quit_children : List ℕ

-- What a static `PCB` holds before its first use.
abbrev pub blank : Pcb
blank = record {
  cid = 0;
  cpu_time = 0;
  name = [];
  priority = 0;
  state = State.free;
  is_being_used = false;
  parent = pos 0;
  children = [];
  sid = pos 0;
  tag = 0;
  func = 0;
  status = pos 0;
  quit_children = [];
}

-- `dispatchNode`
pub record Node : Type 0 where
  pub pid : ℕ
  pub priority : ℕ

abbrev pub blank_node : Node
blank_node = record { pid = 0; priority = 0 }

-- The statics of phase1b.c: `processTable`, the first `queueSize` entries of `dispatchQueue`, and
-- `isTheFirstProcess`.
pub record Sched : Type 0 where
  pub procs : List Pcb
  pub queue : List Node
  pub is_first : Bool
