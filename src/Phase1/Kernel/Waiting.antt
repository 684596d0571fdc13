-- ===== src/Phase1/Kernel/Waiting.antt =====
-- What the semaphore operations do to the processes that wait.
use small_os_simulator.Common.{
  ℕ, ◌≡◌, ◌≢◌, inl, inr, refl, sym, subst, Bool, true, some, List, [], ◌∷◌, ◌++◌, arith, length,
  set, get_or-set_self, get_or-set_ne, index-lt, All, All-map, All-append, ℤ, pos, negsuc,
  minus_one, if_intro, Option-cases, index, ◌<◌,
}
use native.Mathlib.Decide.{ℕ_discrete}
use small_os_simulator.Phase1.Types.{Config, State, Sched, blank}
use small_os_simulator.Phase1.Procs.{proc, get_pid, set_state, set_known, enter_state}
use small_os_simulator.Phase1.Procs.Valid.{IsValid}
use small_os_simulator.Phase1.Procs.Keeps.{
  Stuck, Keeps, Holds, Keeps-Holds, set_state-Keeps, running-Movable,
}
use small_os_simulator.Phase1.Processes.Gone.{get_pid_runs}
use small_os_simulator.Phase1.Processes.Family.{Family, Keeps-Family}
use small_os_simulator.Phase1.Sems.{Sem, sem, blank_sem, insert, valid_sid, p_round, v_update}
use small_os_simulator.Phase1.Sems.Laws.{insert_lem}
use small_os_simulator.Phase1.Kernel.Sound.{
  StuckAt, Distinct, WaitsOn, Waits, Waits-set, Holds-Waits,
}

-- The semaphore that `valid_sid` accepts is one of the table, in use.
pub valid_sid_lem :
    (sid : ℤ) (sems : List Sem) (i : ℕ)
    → valid_sid sid sems ≡ some i
    → (i < length sems) × ((sem sems i).is_being_used ≡ true)
unfolding valid_sid
valid_sid_lem sid sems i e = elim (Option-cases (index (length sems) sid)) [
  | inl none_at ↦ let e' = rw (none_at, valid_sid) at e in absurd cc
  | inr (k, at) ↦
      let e' = rw (at, valid_sid) at e in ground (arith, index-lt (length sems) sid k at)
]

-- The running process may change its state.
pub running_changes :
    {but : ℤ} (c : Config) (s : Sched) (state : State) (sid : ℤ)
    → Keeps but s (set_state c (get_pid s) state sid s).1
running_changes c s state sid =
    set_state-Keeps c (get_pid s) state sid s
      (λ q e. running-Movable q (proc s q) (get_pid_runs s q e).2)

module _ {c : Config} {s : Sched} (v : IsValid c s) (i : ℕ) where
  abbrev blocked : ℤ → Sched
  blocked pid = (set_state c pid State.blocked (pos i) s).1

  becomes-Stuck :
      (q : ℕ)
      → q < length s.procs
      → (proc s q).is_being_used ≡ true
      → Stuck i (proc (blocked (pos q)) q)
  unfolding set_state set_known enter_state
  becomes-Stuck q lt used = ground (
    arith,
    v.sized,
    get_or-set_self s.procs q (record (proc s q) { state = State.blocked; sid = pos i }) blank lt,
  )

  becomes-StuckAt : (pid : ℤ) → get_pid s ≡ pid → StuckAt (blocked pid) i pid
  becomes-StuckAt (pos q) e = let (lt, used, is_on) = get_pid_runs s q e in becomes-Stuck q lt used
  becomes-StuckAt (negsuc n) e = tt

  -- The running process is no waiting one.
  not_waiting : (y : ℤ) → StuckAt s i y → (q : ℕ) → get_pid s ≡ pos q → pos q ≢ y
  not_waiting (pos r) stuck q e same =
      let (lt, used, is_on) = get_pid_runs s q e in
      let stuck' : Stuck i (proc s q) =
        subst (λ k. Stuck i (proc s k)) (ground (arith, same)) stuck in
      cc (is_on, stuck'.1)
  not_waiting (negsuc n) stuck q e same = cc

Distinct-append :
    (xs : List ℤ) (x : ℤ)
    → All (λ y. (q : ℕ) → x ≡ pos q → pos q ≢ y) xs
    → Distinct xs
    → Distinct (xs ++ x ∷ [])
Distinct-append [] x h d = (tt, tt)
Distinct-append (y ∷ xs) x h d =
    (All-append _ xs (x ∷ []) d.0 (h.0, tt), Distinct-append xs x h.1 d.1)

-- A round of `P1_P` on a semaphore in use.
pub p_round-Waits :
    {c : Config} {s : Sched} (i : ℕ) (sems : List Sem)
    → IsValid c s
    → Waits s sems
    → (sem sems i).is_being_used ≡ true
    → Waits (p_round c i s sems).1 (p_round c i s sems).2
unfolding p_round
p_round-Waits {c} {s} i sems v w used =
    if_intro (λ (r : Bool × Sched × List Sem). Waits r.1 r.2) _
      (Waits-set s sems i _ w (λ u. w i used))
      (Waits-set t sems i _ (Holds-Waits s t sems holds w) (λ u. new))
  where
    t : Sched
    t = (set_state c (get_pid s) State.blocked (pos i) s).1

    holds : Holds s t
    holds = Keeps-Holds (running_changes c s State.blocked (pos i))

    new : WaitsOn t i (insert (get_pid s) (sem sems i).head)
    new = rw insert_lem (
      All-append (StuckAt t i) (sem sems i).head (get_pid s ∷ [])
          (Holds-Waits s t sems holds w i used).0 (becomes-StuckAt v i (get_pid s) refl, tt),
      Distinct-append (sem sems i).head (get_pid s)
          (All-map (sem sems i).head (not_waiting v i) (w i used).0) (w i used).1,
    )

pub p_round-Family :
    {c : Config} {s : Sched} (i : ℕ) (sems : List Sem)
    → IsValid c s
    → Family s
    → Family (p_round c i s sems).1
unfolding p_round
p_round-Family {c} {s} i sems v f =
    if_intro (λ (r : Bool × Sched × List Sem). Family r.1) _ f
      (Keeps-Family {but = minus_one} (running_changes c s State.blocked (pos i)) f)

-- A process that `P1_V` wakes may change its state.
woken_changes :
    (c : Config) (s : Sched) (i : ℕ) (pid : ℤ) (sid : ℤ)
    → StuckAt s i pid
    → Keeps pid s (set_state c pid State.ready sid s).1
woken_changes c s i (pos r) sid stuck = set_state-Keeps c (pos r) State.ready sid s (λ q e. record {
  not_gone = λ g.
      let stuck' : Stuck i (proc s q) = subst (λ k. Stuck i (proc s k)) (ground (arith, e)) stuck in
      cc (g.1, stuck'.1);
  not_stuck = λ k n h. n (sym e);
})
woken_changes c s i (negsuc n) sid stuck =
    set_state-Keeps c (negsuc n) State.ready sid s (λ q e. cc)

-- The others go on waiting.
others_wait :
    (s t : Sched) (pid : ℤ) (k : ℕ) (y : ℤ)
    → Keeps pid s t
    → ((q : ℕ) → y ≡ pos q → pos q ≢ pid)
    → StuckAt s k y
    → StuckAt t k y
others_wait s t pid k (pos q) keeps ne stuck = keeps.stuck k q (ne q refl) stuck
others_wait s t pid k (negsuc n) keeps ne stuck = tt

All-others :
    (s t : Sched) (pid : ℤ) (k : ℕ) (xs : List ℤ)
    → Keeps pid s t
    → All (λ y. (q : ℕ) → y ≡ pos q → pos q ≢ pid) xs
    → All (StuckAt s k) xs
    → All (StuckAt t k) xs
All-others s t pid k [] keeps ne stuck = tt
All-others s t pid k (y ∷ xs) keeps ne stuck =
    (others_wait s t pid k y keeps ne.0 stuck.0, All-others s t pid k xs keeps ne.1 stuck.1)

-- No process waits on two semaphores.
one_sid :
    (s : Sched) (i k : ℕ) (pid y : ℤ)
    → i ≢ k
    → StuckAt s i pid
    → StuckAt s k y
    → (q : ℕ) → y ≡ pos q
    → pos q ≢ pid
one_sid s i k (negsuc n) y ne a b q e same = cc
one_sid s i k (pos r) (negsuc n) ne a b q e same = cc
one_sid s i k (pos r) (pos p) ne a b q e same =
    let a' : Stuck i (proc s p) = subst (λ m. Stuck i (proc s m)) (ground (arith, e, same)) a in
    ne (ground (arith, a'.2, b.2))

module _ (c : Config) (s : Sched) (i : ℕ) (sems : List Sem) (pid : ℤ) (w : Waits s sems)
    (stuck : StuckAt s i pid) where
  abbrev awake_again : Sched
  awake_again = (set_state c pid State.ready (pos i) s).1

  v_update_woken :
      (x : Sem) → i < length sems → WaitsOn s i (pid ∷ x.head) → Waits awake_again (set sems i x)
  v_update_woken x lt list j used = elim (ℕ_discrete i j) [
    | yes same ↦
        subst (λ m. WaitsOn awake_again m (sem (set sems i x) m).head) same
          (rw (get_or-set_self sems i x blank_sem lt) (
            All-others s awake_again pid i x.head (woken_changes c s i pid (pos i) stuck) list.1.0
                list.0.1,
            list.1.1,
          ))
    | no ne ↦
        let e = get_or-set_ne sems i j x blank_sem ne in
        let (stuck_all, distinct) = w j (rw e at used) in
        rw e (
          All-others s awake_again pid j (sem sems j).head (woken_changes c s i pid (pos i) stuck)
              (All-map (sem sems j).head (λ y. one_sid s i j pid y ne stuck) stuck_all) stuck_all,
          distinct,
        )
  ]

v_update_at-Waits :
    (c : Config) (s : Sched) (i : ℕ) (sems : List Sem) (head : List ℤ)
    → (sem sems i).head ≡ head
    → i < length sems
    → Waits s sems
    → (sem sems i).is_being_used ≡ true
    → Waits (v_update c i s sems).1 (v_update c i s sems).2
unfolding v_update
v_update_at-Waits c s i sems [] e lt w used =
    rw (e, v_update) (Waits-set s sems i _ w (λ u. w i used))
v_update_at-Waits c s i sems (pid ∷ rest) e lt w used =
    let list = rw e at (w i used) in
    rw (e, v_update) (v_update_woken c s i sems pid w list.0.0 _ lt list)

-- The update of `P1_V` on a semaphore in use.
pub v_update-Waits :
    (c : Config) (s : Sched) (i : ℕ) (sems : List Sem)
    → i < length sems
    → Waits s sems
    → (sem sems i).is_being_used ≡ true
    → Waits (v_update c i s sems).1 (v_update c i s sems).2
v_update-Waits c s i sems lt w used = v_update_at-Waits c s i sems (sem sems i).head refl lt w used

v_update_at-Family :
    (c : Config) (s : Sched) (i : ℕ) (sems : List Sem) (head : List ℤ)
    → (sem sems i).head ≡ head
    → Waits s sems
    → (sem sems i).is_being_used ≡ true
    → Family s
    → Family (v_update c i s sems).1
unfolding v_update
v_update_at-Family c s i sems [] e w used f = rw (e, v_update) f
v_update_at-Family c s i sems (pid ∷ rest) e w used f =
    let list = rw e at (w i used) in
    rw (e, v_update) (Keeps-Family (woken_changes c s i pid (pos i) list.0.0) f)

pub v_update-Family :
    (c : Config) (s : Sched) (i : ℕ) (sems : List Sem)
    → Waits s sems
    → (sem sems i).is_being_used ≡ true
    → Family s
    → Family (v_update c i s sems).1
v_update-Family c s i sems w used f = v_update_at-Family c s i sems (sem sems i).head refl w used f
