-- ===== src/Phase1/Sems/Laws.antt =====
-- What the semaphore operations do to waiting lists, values and the scheduler.
use small_os_simulator.Common.{
  ℕ, ◌+◌, ◌-◌, ◌%◌, ◌^◌, ◌<◌, ◌≡◌, refl, ap, Bool, true, false, List, [], ◌∷◌, ◌++◌, arith, length,
  length-set, set, get_or-set_self, ℤ, pos, if_intro,
}
use small_os_simulator.Phase1.Types.{Config, State, Sched}
use small_os_simulator.Phase1.Procs.{get_pid, set_state}
use small_os_simulator.Phase1.Procs.Valid.{IsValid}
use small_os_simulator.Phase1.Procs.SetState.{set_state-IsValid}
use small_os_simulator.Phase1.Sems.{Sem, sem, blank_sem, insert, p_round, v_update}

-- A new waiter goes to the end of the list.
pub insert_lem : (pid : ℤ) (xs : List ℤ) → insert pid xs ≡ xs ++ pid ∷ []
unfolding insert
insert_lem pid [] = refl
insert_lem pid (x ∷ xs) = ap (◌∷◌ x) (insert_lem pid xs)

-- A round of `P1_P` keeps the dispatch queue and the process table in agreement.
pub p_round-IsValid :
    {c : Config} {s : Sched} (sid : ℕ) (sems : List Sem)
    → IsValid c s
    → IsValid c (p_round c sid s sems).1
unfolding p_round
p_round-IsValid {c} {s} sid sems v =
    if_intro (λ (r : Bool × Sched × List Sem). IsValid c r.1) _ v
      (set_state-IsValid (get_pid s) State.blocked (pos sid) v)

v_update_at :
    {c : Config} {s : Sched} (sid : ℕ) (sems : List Sem) (head : List ℤ)
    → (sem sems sid).head ≡ head
    → IsValid c s
    → IsValid c (v_update c sid s sems).1
unfolding v_update
v_update_at sid sems [] e v = rw (e, v_update) v
v_update_at sid sems (pid ∷ rest) e v =
    rw (e, v_update) (set_state-IsValid pid State.ready (pos sid) v)

-- The update of `P1_V` keeps the dispatch queue and the process table in agreement.
pub v_update-IsValid :
    {c : Config} {s : Sched} (sid : ℕ) (sems : List Sem)
    → IsValid c s
    → IsValid c (v_update c sid s sems).1
v_update-IsValid sid sems v = v_update_at sid sems (sem sems sid).head refl v

module _ (c : Config) (sid : ℕ) (s : Sched) (sems : List Sem) (lt : sid < length sems) where
  -- On a semaphore of the table with value 0, a round of `P1_P` does not pass: it sets the caller
  -- blocked, puts it behind all that wait already, and keeps the value.
  pub p_round_blocks :
      (sem sems sid).value ≡ 0
      → let (passed, t, after) = p_round c sid s sems in
        (passed ≡ false)
        × (t ≡ (set_state c (get_pid s) State.blocked (pos sid) s).1)
        × ((sem after sid).head ≡ (sem sems sid).head ++ get_pid s ∷ [])
        × ((sem after sid).value ≡ 0)
  unfolding p_round
  p_round_blocks e = ground (
    arith,
    insert_lem (get_pid s) (sem sems sid).head,
    get_or-set_self sems sid
        (record (sem sems sid) { head = insert (get_pid s) (sem sems sid).head }) blank_sem lt,
  )

  -- On a semaphore of the table where processes wait, `P1_V` makes the first of them ready, takes
  -- it off the list, and adds one to the value modulo 2 ^ 32.
  pub v_update_wakes :
      (pid : ℤ) (rest : List ℤ)
      → (sem sems sid).head ≡ pid ∷ rest
      → let (woke, t, after) = v_update c sid s sems in
        (woke ≡ true)
        × (t ≡ (set_state c pid State.ready (pos sid) s).1)
        × ((sem after sid).head ≡ rest)
        × ((sem after sid).value ≡ ((sem sems sid).value + 1) % 2 ^ 32)
  unfolding v_update
  v_update_wakes pid rest e =
      rw (e, v_update)
        (
          refl,
          refl,
          ap (λ x. x.head) (get_or-set_self sems sid _ blank_sem lt),
          ap (λ x. x.value) (get_or-set_self sems sid _ blank_sem lt),
        )

  -- On a semaphore of the table with a positive value that an `unsigned int` holds and with
  -- nobody waiting, a round of `P1_P` passes, and a `P1_V` after it touches no process and puts
  -- the value back.
  pub v_update-p_round :
      0 < (sem sems sid).value
      → (sem sems sid).value < 2 ^ 32
      → (sem sems sid).head ≡ []
      → let (passed, t, after) = p_round c sid s sems in
        (passed ≡ true)
        × ((v_update c sid t after).0 ≡ false)
        × ((v_update c sid t after).1 ≡ s)
        × ((sem (v_update c sid t after).2 sid).value ≡ (sem sems sid).value)
  unfolding p_round v_update
  v_update-p_round positive small e =
      let passed : Sem = record (sem sems sid) { value = (sem sems sid).value - 1 } in
      let given : Sem = record passed { value = (passed.value + 1) % 2 ^ 32 } in
      ground (
        arith,
        get_or-set_self sems sid passed blank_sem lt,
        get_or-set_self (set sems sid passed) sid given blank_sem (rw length-set lt),
      )
