-- ===== src/Phase1/Kernel/Sound.antt =====
-- The state of phase 1 between its operations: the dispatch queue, the lists of quit children and the
-- waiting lists of the semaphores, each against the process table.
use small_os_simulator.Common.{
  ℕ, ◌≡◌, ◌≢◌, inl, inr, subst, true, false, Option, none, some, List, [], ◌∷◌, set,
  get_or-set-cases, All, All-map, ℤ, pos, negsuc, if_intro, Option-cases,
}
use small_os_simulator.Phase1.Types.{Config, Code, Sched, Name}
use small_os_simulator.Phase1.Procs.{proc}
use small_os_simulator.Phase1.Procs.Valid.{IsValid}
use small_os_simulator.Phase1.Procs.Keeps.{Stuck, Holds}
use small_os_simulator.Phase1.Processes.Family.{Family}
use small_os_simulator.Phase1.Sems.{
  Sem, sem, blank_sem, sem_create, sem_claim, sem_scan, sem_free, valid_sid,
}
use small_os_simulator.Phase1.Kernel.{Kernel}

-- The entry of a waiting list of semaphore `i` is a process that is blocked on it. `P1_P` puts -1
-- there when no process runs.
abbrev pub StuckAt : Sched → ℕ → ℤ → Type 0
StuckAt s i (pos q) = Stuck i (proc s q)
StuckAt s i (negsuc n) = Unit

-- No process stands in the list twice.
abbrev pub Distinct : List ℤ → Type 0
Distinct [] = Unit
Distinct (x ∷ xs) = All (λ y. (q : ℕ) → y ≡ pos q → pos q ≢ x) xs × Distinct xs

abbrev pub WaitsOn : Sched → ℕ → List ℤ → Type 0
WaitsOn s i head = All (StuckAt s i) head × Distinct head

abbrev pub Waits : Sched → List Sem → Type 0
Waits s sems = (i : ℕ) → (sem sems i).is_being_used ≡ true → WaitsOn s i (sem sems i).head

-- The dispatch queue holds the runnable processes, the lists of quit children hold processes that
-- have quit, once each, and the waiting lists of the semaphores in use hold processes that are
-- blocked on them, once each.
pub record Sound (c : Config) (k : Kernel) : Type 0 where
  pub valid : IsValid c k.sched
  pub family : Family k.sched
  pub waits : Waits k.sched k.sems

Holds-StuckAt : (s t : Sched) (i : ℕ) (y : ℤ) → Holds s t → StuckAt s i y → StuckAt t i y
Holds-StuckAt s t i (pos q) h k = h i q k
Holds-StuckAt s t i (negsuc n) h k = tt

pub Holds-Waits : (s t : Sched) (sems : List Sem) → Holds s t → Waits s sems → Waits t sems
Holds-Waits s t sems h w i used =
    (All-map _ (λ y. Holds-StuckAt s t i y h) (w i used).0, (w i used).1)

module _ (s : Sched) where
  pub Waits-set :
      (sems : List Sem) (i : ℕ) (x : Sem)
      → Waits s sems
      → (x.is_being_used ≡ true → WaitsOn s i x.head)
      → Waits s (set sems i x)
  Waits-set sems i x w new j used = elim (get_or-set-cases sems i j x blank_sem) [
    | inl e ↦ rw e (w j (rw e at used))
    | inr (same, e) ↦ rw e (subst (λ m. WaitsOn s m x.head) same (new (rw e at used)))
  ]

  sem_claim-Waits :
      (name : Name) (value : ℕ) (sems : List Sem) (r : Code × Option ℕ)
      → Waits s sems
      → Waits s (sem_claim name value sems r).2
  unfolding sem_claim
  sem_claim-Waits name value sems (code, none) w =
      if_intro (λ (r : Code × Option ℕ × List Sem). Waits s r.2) _ w w
  sem_claim-Waits name value sems (code, some j) w =
      if_intro (λ (r : Code × Option ℕ × List Sem). Waits s r.2) _
        (Waits-set sems j _ w (λ u. (tt, tt))) w

  pub sem_create-Waits :
      (c : Config) (name : Option Name) (value : ℕ) (sems : List Sem)
      → Waits s sems
      → Waits s (sem_create c name value sems).2
  unfolding sem_create
  sem_create-Waits c none value sems w = w
  sem_create-Waits c (some name) value sems w =
      if_intro (λ (r : Code × Option ℕ × List Sem). Waits s r.2) _ w
        (sem_claim-Waits name value sems (sem_scan name 0 Code.success none sems) w)

  free_at :
      (i : ℕ) (sems : List Sem) (head : List ℤ)
      → Waits s sems
      → Waits s
          (elim head as (λ _. Code × List Sem) [
            | [] ↦ (Code.success, set sems i (record (sem sems i) { is_being_used = false }))
            | _ ∷ _ ↦ (Code.blocked_processes, sems)
          ]).1
  free_at i sems [] w = Waits-set sems i _ w (λ used. absurd cc)
  free_at i sems (x ∷ xs) w = w

  pub sem_free-Waits : (sid : ℤ) (sems : List Sem) → Waits s sems → Waits s (sem_free sid sems).1
  unfolding sem_free
  sem_free-Waits sid sems w = elim (Option-cases (valid_sid sid sems)) [
    | inl e ↦ rw (e, sem_free) w
    | inr (i, e) ↦ rw (e, sem_free) (free_at i sems (sem sems i).head w)
  ]
