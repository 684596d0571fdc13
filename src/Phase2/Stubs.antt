-- ===== src/Phase2/Stubs.antt =====
-- The stubs of the system calls of phase2a.c, phase2b.c and phase2d.c. A pointer in the record of a call is the `int` to which the
-- stubs cast it; the numbers of the codes come from headers outside the repository. The mode checks
-- are not in the model.
use small_os_simulator.Common.{
  ℕ, Bool, true, false, not, Option, none, some, List, ℤ, pos, negsuc, eqb_ℤ, pos_part,
}
use small_os_simulator.Phase1.Types.{Config, Code, Name, Sched}
use small_os_simulator.Phase1.Procs.{get_pid, ProcInfo, get_proc_info}
use small_os_simulator.Phase1.Processes.{
  Quitting, ForkArgs, Forked, refused, assert_failed, created,
}
use small_os_simulator.Phase1.Sems.{
  Sem, valid_sid, sem_create, sem_free, sem_name, p_round, v_update,
}
use small_os_simulator.Phase2.Clock.{to_word, Slept, sleep, Sleeper}
use small_os_simulator.Phase1.Join.{Joining, joined, waits, again}
use small_os_simulator.Phase1.Contexts.{Contexts}
use small_os_simulator.Phase2.Syscalls.{terminate, spawn}

-- `USLOSS_Sysargs` but for the number of the call.
pub record Sysargs : Type 0 where
  pub arg1 : ℤ
  pub arg2 : ℤ
  pub arg3 : ℤ
  pub arg4 : ℤ
  pub arg5 : ℤ

-- `number` gives the number of a code, and `name_at` the string at an address, none at NULL.
module _ (number : Code → ℤ) (name_at : ℤ → Option Name) where
  abbrev pub reply : Code → Sysargs → Sysargs
  reply code a = record a { arg4 = number code }

  -- `CreateStub`
  unfoldable pub create_stub : Config → Sysargs → List Sem → Sysargs × List Sem
  create_stub c a sems =
      let (code, sid, t) = sem_create c (name_at a.arg2) (to_word a.arg1) sems in
      (reply code (record a { arg1 = elim sid [ none ↦ a.arg1 | some i ↦ pos i ] }), t)

  -- `FreeStub`
  unfoldable pub free_stub : Sysargs → List Sem → Sysargs × List Sem
  free_stub a sems = let (code, t) = sem_free a.arg1 sems in (reply code a, t)

  -- `NameStub`, with the name that is copied to the address in `arg2`.
  unfoldable pub name_stub : Sysargs → List Sem → Sysargs × Option Name
  name_stub a sems =
      let (code, name) = sem_name a.arg1 (not (eqb_ℤ a.arg2 (pos 0))) sems in (reply code a, name)

  -- A round of `PStub`: the reply, none where the caller blocks and tries again.
  unfoldable pub p_stub : Config → Sysargs → Sched → List Sem → Option Sysargs × Sched × List Sem
  p_stub c a s sems = elim (valid_sid a.arg1 sems) [
    | none ↦ (some (reply Code.invalid_sid a), s, sems)
    | some i ↦
        let (passed, t, after) = p_round c i s sems in
        (elim passed [ true ↦ some (reply Code.success a) | false ↦ none ], t, after)
  ]

  -- `VStub` up to the dispatch, with whether one follows.
  unfoldable pub v_stub : Config → Sysargs → Sched → List Sem → Sysargs × Bool × Sched × List Sem
  v_stub c a s sems = elim (valid_sid a.arg1 sems) [
    | none ↦ (reply Code.invalid_sid a, false, s, sems)
    | some i ↦ let (woke, t, after) = v_update c i s sems in (reply Code.success a, woke, t, after)
  ]

  -- What `SpawnStub` passes to `P2_Spawn`.
  abbrev pub spawn_args : Sysargs → ForkArgs
  spawn_args a = record {
    name = name_at a.arg5;
    func = pos_part a.arg1;
    arg = pos_part a.arg2;
    stacksize = a.arg3;
    priority = a.arg4;
    tag = pos 1;
  }

  -- What `SpawnStub` writes when `P2_Spawn` returns; none where an assertion has failed in it.
  unfoldable pub spawn_reply : Sysargs → Forked → Option Sysargs
  spawn_reply a (refused code) = some (reply code a)
  spawn_reply a assert_failed = none
  spawn_reply a (created pid d t y) = some (reply Code.success (record a { arg1 = pos pid }))

  -- `SpawnStub`, with the result of `P2_Spawn`, up to a dispatch that follows the fork.
  unfoldable pub spawn_stub :
      Config → ℕ → ℕ → ℕ → Sysargs → Sched → Contexts → Option Sysargs × Forked × Option (ℕ × ℕ)
  unfolding spawn_reply
  spawn_stub c wrapper user_wrapper block a s x =
      let (forked, kept) = spawn c wrapper user_wrapper block (spawn_args a) s x in
      (spawn_reply a forked, forked, kept)

  -- A round of `WaitStub`, whose locals hold `pid` and `status` before it: the reply, none where the
  -- loop of `P1_Join` goes on.
  unfoldable pub wait_stub : ℤ → ℤ → Sysargs → Joining → Option Sysargs
  wait_stub pid status a (joined code (some child) s x) =
      some (reply code (record a { arg1 = pos child.0; arg2 = child.1 }))
  wait_stub pid status a (joined code none s x) =
      some (reply code (record a { arg1 = pid; arg2 = status }))
  wait_stub pid status a (waits s x) = none
  wait_stub pid status a again = none

-- `GetTimeOfDayStub`, with whether the clock device could be read and what it gave; none where the
-- assertion fails.
unfoldable pub time_stub : Bool → ℤ → Sysargs → Option Sysargs
time_stub true now a = some (record a { arg1 = now })
time_stub false now a = none

-- `GetPIDStub`
unfoldable pub get_pid_stub : Sched → Sysargs → Sysargs
get_pid_stub s a = record a { arg1 = get_pid s }

-- `TerminateStub`
unfoldable pub terminate_stub : Config → Sched → Sysargs → Quitting
terminate_stub c s a = terminate c a.arg1 s

-- `ProcInfoStub`: the code for `arg4` and what goes to the address in `arg2`; none where the pid is
-- negative and the code reads before the table.
unfoldable pub proc_info_stub : Sched → Sysargs → Option (Code × Option ProcInfo)
proc_info_stub s a = elim a.arg1 [ pos pid ↦ some (get_proc_info pid s) | negsuc n ↦ none ]

-- `SleepStub` up to the wait, for process `pid` at the time `now`.
unfoldable pub sleep_stub : ℕ → ℤ → Sysargs → List Sleeper → Slept
sleep_stub pid now a table = sleep a.arg1 pid now table
