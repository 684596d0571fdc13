-- ===== src/Phase1/Critical/Safety.antt =====
-- At most as many processes are inside as the semaphore lets in, and no wakeup is lost.
use small_os_simulator.Common.{
  ℕ, ◌+◌, ◌-◌, ◌%◌, ◌^◌, ◌<◌, ◌≡◌, ◌≢◌, ◌⊎◌, inl, inr, refl, sym, ◌∙◌, ap, subst, true, false, List,
  [], ◌∷◌, arith, All, All-map, length, get_or-set_self, ltb, ltb→lt, if◌then◌else◌, ℤ, pos, negsuc,
  Bool-cases,
}
use native.Mathlib.Decide.{dec_lt}
use small_os_simulator.Phase1.Types.{Config, Sched, Node}
use small_os_simulator.Phase1.Procs.Moves.{count-get_or}
use small_os_simulator.Phase1.Procs.{proc, get_pid, current}
use small_os_simulator.Phase1.Procs.Valid.{IsValid, count_out}
use small_os_simulator.Phase1.Procs.Keeps.{Stuck}
use small_os_simulator.Phase1.Processes.Gone.{get_pid_runs}
use small_os_simulator.Phase1.Sems.{Sem, sem, blank_sem, insert, p_round, v_update}
use small_os_simulator.Phase1.Kernel.{downs, ups}
use small_os_simulator.Phase1.Kernel.Sound.{Sound, StuckAt}
use small_os_simulator.Phase1.Kernel.Waiting.{valid_sid_lem}
use small_os_simulator.Phase1.Kernel.Reachable.{Step-Sound}
use small_os_simulator.Phase1.Critical.{
  outside, blocked, woken, inside, put, wake, is_inside, is_woken, Users, Use, tries, leaves,
  elsewhere, Uses, here, next, downed, upped,
}
use small_os_simulator.Phase1.Critical.Counts.{total-put, total_one}
use small_os_simulator.Phase1.Critical.Guard.{
  Guards, In, pass-Guards, block-Guards, leave-Guards, wake-Guards, Waiter-put, blocked_before,
  put_ne,
}

-- A sound kernel whose semaphore `m` guards the section.
pub record Guarded (c : Config) (m size : ℕ) (u : Users) : Type 0 where
  pub sound : Sound c u.kernel
  pub guards : Guards c.max_proc size (sem u.kernel.sems m) u.place
  -- The running process does not wait.
  pub running : (q : ℕ) → get_pid u.kernel.sched ≡ pos q → u.place q ≢ blocked

nonempty : (q : List Node) → q ≢ [] → 0 < length q
nonempty [] ne = absurd (ne refl)
nonempty (n ∷ q) ne = omega arith

-- The head of the dispatch queue is in the process table.
head_known :
    {c : Config} {s : Sched} → IsValid c s → (q : ℕ) → current s ≡ q → s.queue ≢ [] → q < c.max_proc
head_known {c} {s} v q heads some_head =
    let queued = count-get_or s.queue 0 (nonempty s.queue some_head) in
    elim (dec_lt q c.max_proc) [
      | yes lt ↦ lt
      | no out ↦ absurd (omega (arith, count_out v q (omega (arith, out)), rw heads at queued))
    ]

-- A process of a waiting list does not run.
waiting_rests :
    (s : Sched) (m q : ℕ) (xs : List ℤ) → All (StuckAt s m) xs → In q xs → get_pid s ≢ pos q
waiting_rests s m q [] stuck h who = h
waiting_rests s m q (x ∷ xs) stuck (inl e) who =
    let here : Stuck m (proc s q) = subst (StuckAt s m) e stuck.0 in
    let (lt, used, is_on) = get_pid_runs s q who in cc (is_on, here.1)
waiting_rests s m q (x ∷ xs) stuck (inr h) who = waiting_rests s m q xs stuck.1 h who

pub guarded :
    {c : Config} {m size : ℕ} {u : Users}
    → Sound c u.kernel
    → Guards c.max_proc size (sem u.kernel.sems m) u.place
    → Guarded c m size u
guarded {m} {u} sound guards = record {
  sound = sound;
  guards = guards;
  running = λ q who at.
      waiting_rests u.kernel.sched m q (sem u.kernel.sems m).head ((sound.waits m guards.used).0)
        (guards.parked q at) who;
}

module _ (c : Config) (m : ℕ) (s : Sched) (sems : List Sem) (lt : m < length sems) where
  pub sem-p_round_passes :
      ltb 0 (sem sems m).value ≡ true
      → ((p_round c m s sems).0 ≡ true)
        × (sem (p_round c m s sems).2 m ≡ record (sem sems m) { value = (sem sems m).value - 1 })
  unfolding p_round
  sem-p_round_passes e = rw (e, p_round) (refl, get_or-set_self sems m _ blank_sem lt)

  pub sem-p_round_blocks :
      ltb 0 (sem sems m).value ≡ false
      → ((p_round c m s sems).0 ≡ false)
        × (sem (p_round c m s sems).2 m
            ≡ record (sem sems m) { head = insert (get_pid s) (sem sems m).head })
  unfolding p_round
  sem-p_round_blocks e = rw (e, p_round) (refl, get_or-set_self sems m _ blank_sem lt)

  pub sem-v_update_none :
      (sem sems m).head ≡ []
      → sem (v_update c m s sems).2 m
        ≡ record (sem sems m) { value = ((sem sems m).value + 1) % 2 ^ 32 }
  unfolding v_update
  sem-v_update_none e =
      rw (e, v_update)
        (get_or-set_self sems m _ blank_sem lt
          ∙ ap (λ h. record (sem sems m) { value = ((sem sems m).value + 1) % 2 ^ 32; head = h }) e)

  pub sem-v_update_first :
      (y : ℤ) (rest : List ℤ)
      → (sem sems m).head ≡ y ∷ rest
      → sem (v_update c m s sems).2 m
        ≡ record (sem sems m) { value = ((sem sems m).value + 1) % 2 ^ 32; head = rest }
  unfolding v_update
  sem-v_update_first y rest e = rw (e, v_update) (get_or-set_self sems m _ blank_sem lt)

module _ (c : Config) (m size q : ℕ) (u : Users) (g : Guarded c m size u)
    (lt : m < length u.kernel.sems) (known : q < c.max_proc) where
  abbrev x : Sem
  x = sem u.kernel.sems m

  tries-Guards :
      (ltb 0 x.value ≡ false → get_pid u.kernel.sched ≡ pos q)
      → (u.place q ≡ outside) ⊎ (u.place q ≡ woken)
      → Guards c.max_proc size
          (sem (downed c m u.kernel).sems m)
          (put u.place q (if (p_round c m u.kernel.sched u.kernel.sems).0 then inside else blocked))
  tries-Guards who at = elim (Bool-cases (ltb 0 x.value)) [
    | inl e ↦
        let (passed, after) = sem-p_round_passes c m u.kernel.sched u.kernel.sems lt e in
        rw (passed, after)
          (pass-Guards c.max_proc size x u.place g.guards q known (ltb→lt 0 _ e) at)
    | inr e ↦
        let (passed, after) = sem-p_round_blocks c m u.kernel.sched u.kernel.sems lt e in
        rw (passed, after, who e)
          (block-Guards c.max_proc size x u.place g.guards q known (ground arith) at)
  ]

  leaves_at :
      (head : List ℤ)
      → x.head ≡ head
      → u.place q ≡ inside
      → size < 2 ^ 32
      → Guards c.max_proc size (sem (upped c m u.kernel).sems m) (wake head (put u.place q outside))
  leaves_at [] e at small =
      rw (sem-v_update_none c m u.kernel.sched u.kernel.sems lt e)
        (leave-Guards c.max_proc size x u.place g.guards q known at small e)
  leaves_at (pos r ∷ rest) e at small =
      let queued = rw e at g.guards.queued in
      let (k, same, below, stays) = queued.0 in
      let k_is_r : k ≡ r = ground (arith, same) in
      let distinct = rw e at ((g.sound.waits m g.guards.used).1) in
      let free : u.place q ≢ blocked = λ h. cc (at, h) in
      let f = put u.place q outside in
      let counts = total-put u.place is_inside q outside c.max_proc known in
      let wakes = total-put u.place is_woken q outside c.max_proc known in
      let ins : is_inside (u.place q) ≡ 1 = ap is_inside at in
      let wok : is_woken (u.place q) ≡ 0 = ap is_woken at in
      let awake = g.guards.awake (λ h. cc (e, h)) in
      let r_blocked : u.place r ≡ blocked = ap u.place (sym k_is_r) ∙ stays in
      rw (sem-v_update_first c m u.kernel.sched u.kernel.sems lt (pos r) rest e) (
        wake-Guards c.max_proc f r size (record x { value = (x.value + 1) % 2 ^ 32; head = rest })
          rest g.guards.used (subst (λ k. k < c.max_proc) k_is_r below)
          (put_ne u.place q outside r (λ h. free (ap u.place h ∙ r_blocked)) ∙ r_blocked)
          (omega (arith, g.guards.balance, counts, ins))
          (All-map rest (Waiter-put c.max_proc u.place q outside free) queued.1)
          (λ k h. rw e at (g.guards.parked k (blocked_before u.place q outside k (λ h. cc) h).1))
          (omega (arith, awake, wakes, wok, g.guards.balance, counts, ins)) distinct.0 refl)
  leaves_at (negsuc k ∷ rest) e at small = let queued = rw e at g.guards.queued in cc (queued.0.1)

module _ {c : Config} {wrapper m size : ℕ} (small : size < 2 ^ 32) where
  Use-Guarded : {u v : Users} → Guarded c m size u → Use c wrapper m u v → Guarded c m size v
  Use-Guarded {u} g (tries q heads some_head who at e) =
      let (lt, used) = valid_sid_lem (pos m) u.kernel.sems m e in
      let known = head_known g.sound.valid q heads some_head in
      guarded (Step-Sound {wrapper = wrapper} g.sound (downs (pos m) m e))
        (tries-Guards c m size q u g lt known who at)
  Use-Guarded {u} g (leaves q heads some_head at e) =
      let (lt, used) = valid_sid_lem (pos m) u.kernel.sems m e in
      let known = head_known g.sound.valid q heads some_head in
      guarded (Step-Sound {wrapper = wrapper} g.sound (ups (pos m) m e))
        (leaves_at c m size q u g lt known (sem u.kernel.sems m).head refl at small)
  Use-Guarded g (elsewhere step same) = guarded (Step-Sound g.sound step) (rw same g.guards)

  pub Uses-Guarded : {u v : Users} → Guarded c m size u → Uses c wrapper m u v → Guarded c m size v
  Uses-Guarded g here = g
  Uses-Guarded g (next r step) = Use-Guarded (Uses-Guarded g r) step

-- In a run where, whenever a round of `P1_P` on the semaphore blocks, `P1_GetPid` names the process
-- at the head of the dispatch queue, which executes: processes guard a section with `P1_P` and
-- `P1_V` of one semaphore, from a start where the kernel is sound, the semaphore is in use, its
-- value and the processes inside make up 1, its waiting list holds exactly the blocked processes,
-- and while somebody waits there are at least as many woken processes as the value. Then after any
-- number of steps in any order, no two processes of the table are inside.
pub mutual_exclusion :
    {c : Config} {wrapper m : ℕ} {u v : Users} (q r : ℕ)
    → Guarded c m 1 u
    → Uses c wrapper m u v
    → q < c.max_proc
    → r < c.max_proc
    → q ≢ r
    → v.place q ≡ inside
    → v.place r ≢ inside
mutual_exclusion {c} {v} q r g uses lt lt' ne at at' =
    let h = Uses-Guarded (omega arith) g uses in
    ne (
      total_one (λ j. is_inside (v.place j)) c.max_proc q r (omega (arith, h.guards.balance)) lt lt'
        (ap is_inside at) (ap is_inside at'))
