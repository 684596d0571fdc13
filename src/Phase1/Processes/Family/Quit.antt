-- ===== src/Phase1/Processes/Family/Quit.antt =====
-- What `P1_Quit` of the running process does to the lists of quit children and to the processes that
-- wait on a semaphore.
use small_os_simulator.Common.{
  ℕ, zero, suc, ◌<◌, ◌≡◌, refl, subst, Bool, true, false, [], ◌∷◌, ◌++◌, arith, length,
  get_or-set_self, length-set, if◌then◌else◌, ℤ, pos, negsuc, minus_one,
}
use small_os_simulator.Phase1.Types.{Config, State, Sched, blank, is_joining}
use small_os_simulator.Phase1.Procs.{proc, put_proc, get_pid, set_state, set_known, enter_state}
use small_os_simulator.Phase1.Procs.Valid.{IsValid}
use small_os_simulator.Phase1.Procs.Keeps.{
  Gone, Keeps, Keeps-Holds, Holds, set_state-Keeps, Keeps-trans, running-Movable, joining-Movable,
  Movable, put_proc-Stuck,
}
use small_os_simulator.Phase1.Processes.{
  quit, leaves, retire, notify, forget_child, Quitting, undefined,
}
use small_os_simulator.Phase1.Processes.Gone.{get_pid_runs, if_leaves}
use small_os_simulator.Phase1.Processes.Kept.{retire-Keeps, reparent-Keeps}
use small_os_simulator.Phase1.Processes.Family.{
  Family, Fresh, Gone-Fresh, Keeps-Family, Keeps-Fresh, append-Family,
}

-- The lists stay well formed, and no process stops waiting.
pub record Goes (s t : Sched) : Type 0 where
  pub family : Family t
  pub holds : Holds s t

put_proc-Gone_self :
    (s : Sched) (pid : ℕ) (status : ℤ)
    → pid < length s.procs
    → Gone (proc s pid)
    → Gone (proc (put_proc s pid (record (proc s pid) { status = status })) pid)
put_proc-Gone_self s pid status lt g =
    rw (get_or-set_self s.procs pid (record (proc s pid) { status = status }) blank lt) g

module _ (c : Config) (pid : ℕ) {s : Sched} (v : IsValid c s) (lt : pid < length s.procs)
    (used : (proc s pid).is_being_used ≡ true) where
  set_quit :
      let t = (set_state c (pos pid) State.quit (pos 0) s).1 in
      (pid < length t.procs) × Gone (proc t pid)
  unfolding set_state set_known enter_state
  set_quit = ground (
    arith,
    v.sized,
    length-set s.procs pid (record (proc s pid) { state = State.quit }),
    get_or-set_self s.procs pid (record (proc s pid) { state = State.quit }) blank lt,
  )

  retire-Gone : (status : ℤ) → Gone (proc (retire c pid status s) pid)
  unfolding retire
  retire-Gone status =
      put_proc-Gone_self (set_state c (pos pid) State.quit (pos 0) s).1 pid status set_quit.0
        set_quit.1

module _ (c : Config) (pid parent : ℕ) (u : Sched) (f : Family u) (gone : Gone (proc u pid))
    (fresh : Fresh pid u) where
  abbrev listed : Sched
  listed = put_proc u parent (record (proc u parent) {
    quit_children = (proc u parent).quit_children ++ pid ∷ [];
    children = forget_child pid (proc u parent).children;
  })

  listed-Goes : Goes u listed
  listed-Goes = record {
    family = append-Family parent pid _ f refl (λ g. g) gone fresh;
    holds = λ i j h. put_proc-Stuck u parent _ i j (λ e k. k) h;
  }

  ready-Keeps :
      is_joining (proc listed parent).state ≡ true
      → Keeps minus_one listed (set_state c (pos parent) State.ready (pos 0) listed).1
  ready-Keeps joins = set_state-Keeps c (pos parent) State.ready (pos 0) listed (λ q e.
      subst (λ k. Movable minus_one k (proc listed k)) (ground (arith, e))
        (joining-Movable parent _ joins))

  woken :
      (b : Bool)
      → is_joining (proc listed parent).state ≡ b
      → Goes u (if b then (set_state c (pos parent) State.ready (pos 0) listed).1 else listed)
  woken true joins = record {
    family = Keeps-Family (ready-Keeps joins) listed-Goes.family;
    holds = λ i j h. Keeps-Holds (ready-Keeps joins) i j (listed-Goes.holds i j h);
  }
  woken false joins = listed-Goes

  notify-Goes : Goes u (notify c pid parent u)
  unfolding notify
  notify-Goes = woken (is_joining (proc listed parent).state) refl

parent-Goes :
    (c : Config) {u t : Sched} (pid : ℕ) (parent : ℤ)
    → Family u
    → Gone (proc u pid)
    → Fresh pid u
    → (elim parent as (λ _. Quitting) [ pos p ↦ leaves (notify c pid p u) | negsuc n ↦ undefined ])
      ≡ leaves t
    → Goes u t
parent-Goes c {u} {t} pid (pos p) f g n e =
    let same : notify c pid p u ≡ t = ground arith in
    subst (Goes u) same (notify-Goes c pid p u f g n)
parent-Goes c pid (negsuc n) f g m e = cc

pub Goes-trans : {s t u : Sched} → Goes s t → Goes t u → Goes s u
Goes-trans k g = record { family = g.family; holds = λ i j h. g.holds i j (k.holds i j h) }

pub Keeps-Goes : {s t : Sched} → Family s → Keeps minus_one s t → Goes s t
Keeps-Goes f k = record { family = Keeps-Family k f; holds = Keeps-Holds k }

quit_at-Goes :
    (c : Config) {s t : Sched} (pid : ℕ) (status : ℤ)
    → IsValid c s
    → Family s
    → get_pid s ≡ pos pid
    → quit c (pos pid) status s ≡ leaves t
    → Goes s t
unfolding quit
quit_at-Goes c {s} zero status v f who e =
    let runs = (get_pid_runs s zero who).2 in
    subst (Goes s) (if_leaves _ e)
      (Keeps-Goes f (retire-Keeps c 0 status s (running-Movable 0 _ runs)))
quit_at-Goes c {s} {t} (suc pid) status v f who e =
    let (there, used, is_on) = get_pid_runs s (suc pid) who in
    let movable = running-Movable {but = minus_one} (suc pid) (proc s (suc pid)) is_on in
    let retired = retire-Keeps c (suc pid) status s movable in
    let kids = (proc (retire c (suc pid) status s) (suc pid)).children in
    let moved = reparent-Keeps {but = minus_one} kids (retire c (suc pid) status s) in
    let gone = moved.gone (suc pid) (retire-Gone c (suc pid) v there used status) in
    let fresh = Keeps-Fresh moved (Keeps-Fresh retired (Gone-Fresh (suc pid) f movable.not_gone)) in
    Goes-trans (Keeps-Goes f (Keeps-trans retired moved))
      (parent-Goes c (suc pid) _ (Keeps-Family moved (Keeps-Family retired f)) gone fresh e)

pub quit-Goes :
    (c : Config) {s t : Sched} (pid status : ℤ)
    → IsValid c s
    → Family s
    → get_pid s ≡ pid
    → quit c pid status s ≡ leaves t
    → Goes s t
unfolding quit
quit-Goes c (pos pid) status v f who e = quit_at-Goes c pid status v f who e
quit-Goes c (negsuc n) status v f who e = cc
