-- ===== src/Phase1/Sems.antt =====
-- phase1c.c: semaphores (`P1SemInit`, `P1_SemCreate`, `P1_SemFree`, `P1_P`, `P1_V`, `P1_SemName`,
-- `insert`, `remove`), on the statics as they stand with interrupts off. The mode check, the interrupt
-- switches and the context switches are not in the model.
pub mod Laws
pub mod Create
use small_os_simulator.Common.{
  ℕ, suc, ◌+◌, ◌-◌, ◌%◌, ◌^◌, Bool, true, false, ◌&&◌, Option, none, some, List, [], ◌∷◌, ltb,
  if◌then◌else◌, length, get_or, set, ℤ, pos, index,
}
use small_os_simulator.Phase1.Types.{Config, Code, State, Sched, Name, same_name, is_success}
use small_os_simulator.Phase1.Procs.{get_pid, set_state}

-- `Sem`. The linked list `head` is the list of the waiting pids; `queueSize` is never read.
pub record Sem : Type 0 where
  pub name : Name
  pub value : ℕ
  pub is_being_used : Bool
  pub head : List ℤ

abbrev pub blank_sem : Sem
blank_sem = record { name = []; value = 0; is_being_used = false; head = [] }

abbrev pub sem : List Sem → ℕ → Sem
sem sems i = get_or sems i blank_sem

-- `insert`: at the end of the linked list.
unfoldable pub insert : ℤ → List ℤ → List ℤ
insert pid [] = pid ∷ []
insert pid (x ∷ xs) = x ∷ insert pid xs

-- `P1SemInit`, after `P1ProcInit`.
unfoldable pub sem_init : List Sem → List Sem
sem_init [] = []
sem_init (x ∷ xs) = record x { is_being_used = false } ∷ sem_init xs

-- The loop of `P1_SemCreate`, which has no break.
unfoldable pub sem_scan : Name → ℕ → Code → Option ℕ → List Sem → Code × Option ℕ
sem_scan name i code j [] = (code, j)
sem_scan name i code j (x ∷ xs) =
    sem_scan name (suc i)
      (if x.is_being_used && same_name name x.name then Code.duplicate_name else code)
      (elim j [ none ↦ (if x.is_being_used then none else some i) | some k ↦ some k ]) xs

-- The end of `P1_SemCreate`, from what the loop leaves in `result` and `j`.
unfoldable pub sem_claim : Name → ℕ → List Sem → Code × Option ℕ → Code × Option ℕ × List Sem
sem_claim name value sems (code, none) =
    if is_success code then (Code.too_many_sems, none, sems) else (code, none, sems)
sem_claim name value sems (code, some j) =
    if is_success code
    then (
      code,
      some j,
      set sems j (record { name = name; value = value; is_being_used = true; head = [] }),
    )
    else (code, none, sems)

-- `P1_SemCreate`: the code, what goes through `sid`, and the table. None is the NULL name.
unfoldable pub sem_create : Config → Option Name → ℕ → List Sem → Code × Option ℕ × List Sem
unfolding sem_scan sem_claim
sem_create c none value sems = (Code.name_is_null, none, sems)
sem_create c (some name) value sems =
    if ltb c.max_name (length name)
    then (Code.name_too_long, none, sems)
    else sem_claim name value sems (sem_scan name 0 Code.success none sems)

-- The guard `sid < 0 || sid >= P1_MAXSEM || sems[sid].isBeingUsed == 0`: none if it holds.
unfoldable pub valid_sid : ℤ → List Sem → Option ℕ
valid_sid sid sems = elim (index (length sems) sid) [
  | none ↦ none
  | some i ↦ if (sem sems i).is_being_used then some i else none
]

-- `P1_SemFree`
unfoldable pub sem_free : ℤ → List Sem → Code × List Sem
sem_free sid sems = elim (valid_sid sid sems) [
  | none ↦ (Code.invalid_sid, sems)
  | some i ↦ elim (sem sems i).head [
    | [] ↦ (Code.success, set sems i (record (sem sems i) { is_being_used = false }))
    | _ ∷ _ ↦ (Code.blocked_processes, sems)
  ]
]

-- One round of the loop of `P1_P` with a valid sid: true if it leaves the loop, false if the caller
-- is blocked and `P1Dispatch(FALSE)` follows.
unfoldable pub p_round : Config → ℕ → Sched → List Sem → Bool × Sched × List Sem
unfolding insert
p_round c sid s sems =
    let x = sem sems sid in
    if ltb 0 x.value then (true, s, set sems sid (record x { value = x.value - 1 })) else (
      false,
      (set_state c (get_pid s) State.blocked (pos sid) s).1,
      set sems sid (record x { head = insert (get_pid s) x.head }),
    )

-- The part of `P1_V` with a valid sid up to the dispatch: true if `P1Dispatch(FALSE)` follows.
-- `value` is an `unsigned int`.
unfoldable pub v_update : Config → ℕ → Sched → List Sem → Bool × Sched × List Sem
v_update c sid s sems =
    let x = record (sem sems sid) { value = ((sem sems sid).value + 1) % 2 ^ 32 } in
    elim x.head [
      | [] ↦ (false, s, set sems sid x)
      | pid ∷ rest ↦ (
        true,
        (set_state c pid State.ready (pos sid) s).1,
        set sems sid (record x { head = rest }),
      )
    ]

-- `P1_SemName`, with whether `name` is not NULL; the name goes through it.
unfoldable pub sem_name : ℤ → Bool → List Sem → Code × Option Name
sem_name sid given sems =
    if given
    then elim (valid_sid sid sems) [
      | none ↦ (Code.invalid_sid, none)
      | some i ↦ (Code.success, some (sem sems i).name)
    ]
    else (Code.name_is_null, none)
