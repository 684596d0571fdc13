-- ===== src/Phase2/Clock.antt =====
-- The clock driver and the sleepers of phase2b.c: `P2_Sleep`, a round of the loop of `ClockDriver`, and
-- `P2ClockShutdown`. The mutex of the table is held throughout and is not in the model, nor are the
-- mode checks. An `int` that overflows wraps, as the compilers of the code make it do.
pub mod Sleep
pub mod Start
use small_os_simulator.Common.{
  ℕ, zero, suc, ◌+◌, ◌-◌, ◌*◌, ◌%◌, ◌^◌, Bool, true, false, not, ◌&&◌, Option, none, some, List, [],
  ◌∷◌, ltb, if◌then◌else◌, length, get_or, set, ℤ, pos, negsuc, ltb_ℤ,
}
use small_os_simulator.Phase1.Types.{Config, Code, Sched}
use small_os_simulator.Phase1.Sems.{Sem, valid_sid, v_update, sem_free}

-- The `int` with the low 32 bits of a number, and the other way.
unfoldable pub to_int : ℕ → ℤ
to_int n = if ltb (n % 2 ^ 32) (2 ^ 31) then pos (n % 2 ^ 32) else negsuc (2 ^ 32 - 1 - n % 2 ^ 32)

unfoldable pub to_word : ℤ → ℕ
to_word (pos n) = n % 2 ^ 32
to_word (negsuc n) = 2 ^ 32 - 1 - n % 2 ^ 32

-- `sleepingProcessInfo`; the times are in microseconds.
pub record Sleeper : Type 0 where
  pub pid : ℕ
  pub start_time : ℤ
  pub rest_time : ℤ
  pub is_being_used : Bool
  pub sem_id : ℤ

abbrev pub no_sleeper : Sleeper
no_sleeper = record {
  pid = 0;
  start_time = pos 0;
  rest_time = pos 0;
  is_being_used = false;
  sem_id = pos 0;
}

abbrev pub sleeper : List Sleeper → ℕ → Sleeper
sleeper table i = get_or table i no_sleeper

-- What `P2_Sleep` does before it waits on the semaphore of its entry.
pub data Slept : Type 0 where
  invalid_seconds : Slept
  at_once : Slept
  -- the table, and the semaphore to wait on
  waits : List Sleeper → ℤ → Slept

-- `P2_Sleep` of process `pid`, at what the clock device reads.
unfoldable pub sleep : ℤ → ℕ → ℤ → List Sleeper → Slept
unfolding to_int to_word
sleep (negsuc n) pid now table = invalid_seconds
sleep (pos zero) pid now table = at_once
sleep (pos (suc n)) pid now table =
    waits
      (set table pid (record (sleeper table pid) {
        pid = pid;
        start_time = now;
        rest_time = to_int (to_word (pos (suc n)) * 1000000);
        is_being_used = true;
      }))
      (sleeper table pid).sem_id

-- `isBeingUsed == 1 && restTime + startTime <= now`
unfoldable pub due : ℤ → Sleeper → Bool
unfolding to_int to_word
due now x = x.is_being_used && not (ltb_ℤ now (to_int (to_word x.rest_time + to_word x.start_time)))

-- The loop of `ClockDriver` over the table: the table, and the semaphores that get a `P1_V`.
unfoldable pub wake_due : ℤ → List Sleeper → List Sleeper × List ℤ
unfolding due
wake_due now [] = ([], [])
wake_due now (x ∷ xs) =
    let (rest, sids) = wake_due now xs in
    if due now x
    then (record x { is_being_used = false } ∷ rest, x.sem_id ∷ sids)
    else (x ∷ rest, sids)

-- `P1_V` of each, up to its dispatch; none where an assert on its code fails.
unfoldable pub v_all : Config → List ℤ → Sched → List Sem → Option (Sched × List Sem)
v_all c [] s sems = some (s, sems)
v_all c (sid ∷ sids) s sems = elim (valid_sid sid sems) [
  | none ↦ none
  | some i ↦ v_all c sids (v_update c i s sems).1 (v_update c i s sems).2
]

-- A round of `ClockDriver` that was not aborted, at the time `now`.
unfoldable pub clock_round :
    Config → ℤ → List Sleeper → Sched → List Sem → Option (List Sleeper × Sched × List Sem)
unfolding wake_due v_all
clock_round c now table s sems = elim (v_all c (wake_due now table).1 s sems) [
  | none ↦ none
  | some (s', sems') ↦ some ((wake_due now table).0, s', sems')
]

-- The loop of `P2ClockShutdown`; none where an assert on the code of `P1_SemFree` fails.
unfoldable pub clear_sleepers : List Sleeper → List Sem → Option (List Sleeper × List Sem)
clear_sleepers [] sems = some ([], sems)
clear_sleepers (x ∷ xs) sems =
    let (code, sems') = sem_free x.sem_id sems in
    elim code as (λ _. Option (List Sleeper × List Sem)) [
      | Code.success ↦ elim (clear_sleepers xs sems') [
        | none ↦ none
        | some (rest, sems'') ↦ some (record x { is_being_used = false } ∷ rest, sems'')
      ]
      | _ ↦ none
    ]
