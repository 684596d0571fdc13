-- ===== src/Phase1/Processes/Gone.antt =====
-- The process that has quit, in the table and the queue that `P1_Quit` leaves.
use small_os_simulator.Common.{
  ℕ, zero, suc, ◌<◌, ◌≡◌, ◌≢◌, refl, ◌∙◌, ap, subst, List, [], ◌∷◌, Bool, true, false, arith,
  length, ltb, ◌==◌, if◌then◌else◌, ℤ, pos, negsuc, find_index, find_index-holds, Bool-cases, inl,
  inr, get_or-set_self, get_or-set_ne, length-set, ==→eq, ==→ne, ltb→lt,
}
use small_os_simulator.Phase1.Types.{Config, State, Pcb, Sched, blank, is_joining, is_running}
use small_os_simulator.Phase1.Queue.{count}
use small_os_simulator.Phase1.Procs.{
  proc, put_proc, set_state, set_known, enter_state, get_pid, runs,
}
use small_os_simulator.Phase1.Procs.Valid.{IsValid}
use small_os_simulator.Phase1.Processes.{
  quit, leaves, halts, retire, notify, reparent, Quitting, undefined,
}
use small_os_simulator.Phase1.Processes.Quit.{
  QuitsWell, leaving, halting, before_table, quit-QuitsWell,
}

-- The process of the table is in state quit, with this exit status.
pub record HasQuit (pid : ℕ) (status : ℤ) (s : Sched) : Type 0 where
  pub known : pid < length s.procs
  pub state : (proc s pid).state ≡ State.quit
  pub exit : (proc s pid).status ≡ status

module _ (pid : ℕ) (status : ℤ) where
  put_proc-HasQuit :
      {s : Sched} (i : ℕ) (p : Pcb)
      → p.state ≡ (proc s i).state
      → p.status ≡ (proc s i).status
      → HasQuit pid status s
      → HasQuit pid status (put_proc s i p)
  put_proc-HasQuit {s} i p same_state same_status h = record {
    known = rw length-set h.known;
    state = put_state;
    exit = put_exit;
  }
    where
      put_state : (proc (put_proc s i p) pid).state ≡ State.quit
      put_state = elim (Bool-cases (i == pid)) [
        | inr ne ↦
            ap (λ p. p.state) (get_or-set_ne s.procs i pid p blank (==→ne i pid ne)) ∙ h.state
        | inl eq ↦
            subst (λ k. (proc (put_proc s i p) k).state ≡ State.quit) (==→eq i pid eq)
              (ap (λ p. p.state) (get_or-set_self s.procs i p blank (rw (==→eq i pid eq) h.known))
                ∙ same_state
                ∙ rw (==→eq i pid eq) h.state)
      ]

      put_exit : (proc (put_proc s i p) pid).status ≡ status
      put_exit = elim (Bool-cases (i == pid)) [
        | inr ne ↦
            ap (λ p. p.status) (get_or-set_ne s.procs i pid p blank (==→ne i pid ne)) ∙ h.exit
        | inl eq ↦
            subst (λ k. (proc (put_proc s i p) k).status ≡ status) (==→eq i pid eq)
              (ap (λ p. p.status) (get_or-set_self s.procs i p blank (rw (==→eq i pid eq) h.known))
                ∙ same_status
                ∙ rw (==→eq i pid eq) h.exit)
      ]

  reparent-HasQuit :
      (ks : List ℕ) {s : Sched} → HasQuit pid status s → HasQuit pid status (reparent ks s)
  unfolding reparent
  reparent-HasQuit [] h = h
  reparent-HasQuit (k ∷ ks) h =
      reparent-HasQuit ks (put_proc-HasQuit 0 _ refl refl (put_proc-HasQuit k _ refl refl h))

  ready-HasQuit :
      (c : Config) {s : Sched} (i : ℕ)
      → i ≢ pid
      → HasQuit pid status s
      → HasQuit pid status (set_state c (pos i) State.ready (pos 0) s).1
  unfolding set_state set_known enter_state
  ready-HasQuit c {s} i ne h = record {
    known =
        ground (arith, h.known, length-set s.procs i (record (proc s i) { state = State.ready }));
    state = ground (
      arith,
      h.state,
      get_or-set_ne s.procs i pid (record (proc s i) { state = State.ready }) blank ne,
    );
    exit = ground (
      arith,
      h.exit,
      get_or-set_ne s.procs i pid (record (proc s i) { state = State.ready }) blank ne,
    );
  }

  notify-HasQuit :
      (c : Config) {s : Sched} (parent : ℕ)
      → HasQuit pid status s
      → HasQuit pid status (notify c pid parent s)
  unfolding notify
  notify-HasQuit c {s} parent h = woken _ _ refl (put_proc-HasQuit parent _ refl refl h)
    where
      differs :
          (t : Sched)
          → is_joining (proc t parent).state ≡ true
          → HasQuit pid status t
          → parent ≢ pid
      differs t joins q e =
          let joins' : is_joining (proc t pid).state ≡ true =
            subst (λ k. is_joining (proc t k).state ≡ true) e joins in
          let joins'' : false ≡ true = rw q.state at joins' in absurd cc

      woken :
          (t : Sched) (b : Bool)
          → is_joining (proc t parent).state ≡ b
          → HasQuit pid status t
          → HasQuit pid status (if b then (set_state c (pos parent) State.ready (pos 0) t).1 else t)
      woken t true joins q = ready-HasQuit c parent (differs t joins q) q
      woken t false joins q = q

  quits :
      (c : Config) {s : Sched}
      → IsValid c s
      → pid < length s.procs
      → (proc s pid).is_being_used ≡ true
      → let t = (set_state c (pos pid) State.quit (pos 0) s).1 in
        (pid < length t.procs) × ((proc t pid).state ≡ State.quit)
  unfolding set_state set_known enter_state
  quits c {s} v lt used = ground (
    arith,
    v.sized,
    length-set s.procs pid (record (proc s pid) { state = State.quit }),
    get_or-set_self s.procs pid (record (proc s pid) { state = State.quit }) blank lt,
  )

  retire-HasQuit :
      (c : Config) {s : Sched}
      → IsValid c s
      → pid < length s.procs
      → (proc s pid).is_being_used ≡ true
      → HasQuit pid status (retire c pid status s)
  unfolding retire
  retire-HasQuit c {s} v lt used =
      let (there, state) = quits c v lt used in
      record {
        known = rw length-set there;
        state = ap (λ p. p.state) (get_or-set_self _ pid _ blank there) ∙ state;
        exit = ap (λ p. p.status) (get_or-set_self _ pid _ blank there);
      }

pub leaves-IsValid :
    {c : Config} {q : Quitting} {t : Sched} → QuitsWell c q → q ≡ leaves t → IsValid c t
leaves-IsValid {c} (leaving v) e = subst (IsValid c) (ground arith) v
leaves-IsValid (halting v) e = cc
leaves-IsValid before_table e = cc

pub if_leaves : {u t : Sched} (b : Bool) → (if b then halts u else leaves u) ≡ leaves t → u ≡ t
if_leaves true e = cc
if_leaves false e = ground arith

leaves_parent :
    (c : Config) {u t : Sched} (pid : ℕ) (status parent : ℤ)
    → HasQuit pid status u
    → (elim parent as (λ _. Quitting) [ pos p ↦ leaves (notify c pid p u) | negsuc n ↦ undefined ])
      ≡ leaves t
    → HasQuit pid status t
leaves_parent c {u} {t} pid status (pos p) h e =
    let same : notify c pid p u ≡ t = ground arith in
    subst (HasQuit pid status) same (notify-HasQuit pid status c p h)
leaves_parent c pid status (negsuc n) h e = cc

retire-quit :
    (c : Config) (s : Sched) {t : Sched} (pid : ℕ) (status : ℤ)
    → HasQuit pid status (retire c pid status s)
    → quit c (pos pid) status s ≡ leaves t
    → HasQuit pid status t
unfolding quit
retire-quit c s zero status h e = subst (HasQuit 0 status) (if_leaves _ e) h
retire-quit c s (suc pid) status h e =
    leaves_parent c (suc pid) status _
      (reparent-HasQuit (suc pid) status (proc (retire c (suc pid) status s) (suc pid)).children h)
      e

pub get_pid_runs :
    (s : Sched) (pid : ℕ)
    → get_pid s ≡ pos pid
    → (pid < length s.procs)
      × ((proc s pid).is_being_used ≡ true)
      × (is_running (proc s pid).state ≡ true)
unfolding get_pid
get_pid_runs s pid e = elim (Bool-cases (ltb (find_index runs s.procs) (length s.procs))) [
  | inr none ↦ let e' = rw none at e in absurd (ground arith)
  | inl found ↦
      let e' = rw found at e in
      let at : find_index runs s.procs ≡ pid = ground arith in
      let lt = ltb→lt _ _ found in
      let holds = rw at at (find_index-holds runs s.procs blank lt) in
      (rw at at lt, ground (arith, holds), ground (arith, holds))
]

-- From a scheduler whose queue and table agree, when the process that `P1_GetPid` names leaves
-- through `P1_Quit`, it is in state quit with the exit status that it gave and stands no more in
-- the dispatch queue, whoever its parent and its children are.
pub quit-HasQuit :
    {c : Config} {s t : Sched} (pid : ℕ) (status : ℤ)
    → IsValid c s
    → get_pid s ≡ pos pid
    → quit c (pos pid) status s ≡ leaves t
    → HasQuit pid status t × (count pid t.queue ≡ 0)
quit-HasQuit {c} {s} {t} pid status v who e =
    let (there, used, is_on) = get_pid_runs s pid who in
    let h : HasQuit pid status t =
      retire-quit c s pid status (retire-HasQuit pid status c v there used) e in
    let w : IsValid c t = leaves-IsValid (quit-QuitsWell (pos pid) status v) e in
    (h, ground (arith, w.listed pid, h.state))
