-- ===== src/Phase2/Syscalls.antt =====
-- System calls of phase2a.c: the table of handlers, the two interrupt handlers, and the operations on
-- processes for user code. The table holds function pointers of any type `A`; the numbers of the calls
-- and USLOSS_MAX_SYSCALLS come from headers outside the repository and are arguments.
pub mod Table
use small_os_simulator.Common.{
  ℕ, zero, suc, ◌==◌, ◌||◌, Bool, true, false, Option, none, some, List, [], ◌∷◌, ltb,
  if◌then◌else◌, ℤ, pos, negsuc, get_or, set, length, index,
}
use small_os_simulator.Phase1.Types.{Config, Sched, Code}
use small_os_simulator.Phase1.Procs.{get_pid, get_proc_info}
use small_os_simulator.Phase1.Contexts.{Contexts}
use small_os_simulator.Phase1.Processes.{
  ForkArgs, Forked, refused, assert_failed, created, fork, Quitting, undefined, quit,
}
use small_os_simulator.Phase1.Join.{Joining, join_round}

-- What `SyscallHandler` does: it calls a handler, or puts P2_INVALID_SYSCALL into `arg4`, or reads
-- beside the table.
pub data Dispatched (A : Type 0) : Type 0 where
  calls : A → Dispatched A
  invalid_syscall outside_table : Dispatched A

module _ {A : Type 0} where
  -- The loop that clears the table.
  unfoldable pub clear_handlers : List (Option A) → List (Option A)
  clear_handlers [] = []
  clear_handlers (h ∷ hs) = none ∷ clear_handlers hs

  -- `P2_SetSyscallHandler`: whether it returns P1_SUCCESS and not P2_INVALID_SYSCALL, and the table.
  unfoldable pub set_handler : ℕ → ℕ → A → List (Option A) → Bool × List (Option A)
  set_handler most number h table =
      if number == 0 || ltb most number then (false, table) else (true, set table number (some h))

  -- Calls of `P2_SetSyscallHandler` in a row, each with an assertion behind it; none where one fails.
  unfoldable pub install : ℕ → List (ℕ × A) → List (Option A) → Option (List (Option A))
  unfolding set_handler
  install most [] table = some table
  install most (e ∷ es) table =
      let (ok, next) = set_handler most e.0 e.1 table in
      let rest = install most es next in if ok then rest else none

  unfoldable pub syscall_handler : List (Option A) → ℤ → Dispatched A
  syscall_handler table number = elim (index (length table) number) [
    | none ↦ outside_table
    | some i ↦ elim (get_or table i none) [ none ↦ invalid_syscall | some h ↦ calls h ]
  ]

-- The stubs of phase2a.c, phase2b.c, phase2c.c and phase2d.c.
pub data Stub : Type 0 where
  spawn_stub wait_stub terminate_stub proc_info_stub get_pid_stub get_time_stub : Stub
  create_stub p_stub v_stub free_stub name_stub : Stub
  sleep_stub disk_read_stub disk_write_stub disk_size_stub : Stub

-- The numbers of the system calls, SYS_SPAWN and so on.
pub record Numbers : Type 0 where
  pub sys_spawn : ℕ
  pub sys_wait : ℕ
  pub sys_terminate : ℕ
  pub sys_get_proc_info : ℕ
  pub sys_get_pid : ℕ
  pub sys_get_time : ℕ
  pub sys_sem_create : ℕ
  pub sys_sem_p : ℕ
  pub sys_sem_v : ℕ
  pub sys_sem_free : ℕ
  pub sys_sem_name : ℕ
  pub sys_sleep : ℕ
  pub sys_disk_read : ℕ
  pub sys_disk_write : ℕ
  pub sys_disk_size : ℕ

-- What `P2ProcInit` installs.
abbrev pub process_calls : Numbers → List (ℕ × Stub)
process_calls n =
    (n.sys_spawn, spawn_stub)
    ∷ (n.sys_wait, wait_stub)
    ∷ (n.sys_terminate, terminate_stub)
    ∷ (n.sys_get_proc_info, proc_info_stub)
    ∷ (n.sys_get_pid, get_pid_stub)
    ∷ (n.sys_get_time, get_time_stub)
    ∷ []

-- What `P2_Startup` installs.
abbrev pub sem_calls : Numbers → List (ℕ × Stub)
sem_calls n =
    (n.sys_sem_create, create_stub)
    ∷ (n.sys_sem_p, p_stub)
    ∷ (n.sys_sem_v, v_stub)
    ∷ (n.sys_sem_free, free_stub)
    ∷ (n.sys_sem_name, name_stub)
    ∷ []

-- What `P2ClockInit` installs, after `P2ProcInit`.
abbrev pub clock_calls : Numbers → List (ℕ × Stub)
clock_calls n = (n.sys_sleep, sleep_stub) ∷ []

-- What `P2DiskInit` installs.
abbrev pub disk_calls : Numbers → List (ℕ × Stub)
disk_calls n =
    (n.sys_disk_read, disk_read_stub)
    ∷ (n.sys_disk_write, disk_write_stub)
    ∷ (n.sys_disk_size, disk_size_stub)
    ∷ []

-- The table that `P2ProcInit` leaves; none where an assertion fails.
unfoldable pub init_handlers : ℕ → Numbers → List (Option Stub) → Option (List (Option Stub))
unfolding clear_handlers install
init_handlers most n table = install most (process_calls n) (clear_handlers table)

-- `P2_Spawn`. `user_wrapper` is `wrapper` of phase2a.c and `block` the address that `malloc` returned;
-- with the fork goes what the block holds while it is allocated, the function and its argument.
unfoldable pub spawn : Config → ℕ → ℕ → ℕ → ForkArgs → Sched → Contexts → Forked × Option (ℕ × ℕ)
spawn c wrapper user_wrapper block a s x =
    let r = fork c wrapper (record a { func = user_wrapper; arg = block; tag = pos 1 }) s x in
    (
      r,
      elim r [
        | refused code ↦ none
        | assert_failed ↦ some (a.func, a.arg)
        | created i d t y ↦ some (a.func, a.arg)
      ],
    )

-- A round of the loop behind `P2_Wait`.
abbrev pub wait_round : Config → Sched → Contexts → Joining
wait_round c s x = join_round c (pos 1) s x

-- `P2_Terminate`
abbrev pub terminate : Config → ℤ → Sched → Quitting
terminate c status s = quit c (get_pid s) status s

-- `IllegalHandler`; none where the assertion fails.
unfoldable pub illegal_handler : Config → Sched → Option Quitting
illegal_handler c s = elim (get_pid s) [
  | negsuc n ↦ some undefined
  | pos pid ↦ elim (get_proc_info pid s).1 [
    | none ↦ none
    | some info ↦
        if info.tag == 0
        then some (quit c (pos pid) (pos 1024) s)
        else some (terminate c (pos 2048) s)
  ]
]
