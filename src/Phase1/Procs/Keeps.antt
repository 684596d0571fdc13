-- ===== src/Phase1/Procs/Keeps.antt =====
-- What a change of the scheduler keeps for the processes that have quit and for those that wait on a
-- semaphore.
pub mod Dispatch
use small_os_simulator.Common.{
  ℕ, ◌<◌, ◌≤◌, ◌≡◌, ◌≢◌, ◌⊎◌, inl, inr, refl, sym, ◌∙◌, ap, subst, Bool, true, false, ◌&&◌, Option,
  none, some, List, [], ◌∷◌, arith, length, get_or, set, get_or-set_self, get_or-set_ne, get_or_out,
  length-set, get_or-set-cases, ℤ, pos, negsuc, minus_one, index, ltb, if◌then◌else◌, Bool-cases,
  Option-cases, ltb→lt, find_index, find_index-holds,
}
use native.Mathlib.Decide.{dec_lt, ℕ_discrete}
use mathlib.Core.Option.{some-injective}
use small_os_simulator.Phase1.Types.{
  Config, State, Pcb, Node, Sched, blank, blank_node, is_blocked, is_ready, is_joining, is_running,
}
use small_os_simulator.Phase1.Queue.{swap, shift}
use small_os_simulator.Phase1.Procs.{
  proc, current, put_proc, mark, runs, get_pid, settable, enter_state, set_known, set_state,
  preempt, rotate_to, choose_at, choose, dispatch, highest_index,
}
use small_os_simulator.Phase1.Procs.Valid.{IsValid, runnable}
use small_os_simulator.Phase1.Procs.Moves.{queued_known, count-get_or, preempt_lem}
use small_os_simulator.Phase1.Procs.Dispatch.{in_range}

-- The process has quit, and waits to be joined.
abbrev pub Gone : Pcb → Type 0
Gone p = (p.is_being_used ≡ true) × (p.state ≡ State.quit)

-- The process waits on semaphore `i`.
abbrev pub Stuck : ℕ → Pcb → Type 0
Stuck i p = (p.is_being_used ≡ true) × (p.state ≡ State.blocked) × (p.sid ≡ pos i)

-- From `s` to `t`, the lists of quit children stay or are emptied, processes that have quit stay so,
-- and so do those that wait on a semaphore, all but one pid.
pub record Keeps (but : ℤ) (s t : Sched) : Type 0 where
  pub lists :
      (i : ℕ)
      → ((proc t i).quit_children ≡ (proc s i).quit_children) ⊎ ((proc t i).quit_children ≡ [])
  pub gone : (j : ℕ) → Gone (proc s j) → Gone (proc t j)
  pub stuck : (i j : ℕ) → pos j ≢ but → Stuck i (proc s j) → Stuck i (proc t j)

pub Keeps-refl : {but : ℤ} (s : Sched) → Keeps but s s
Keeps-refl s = record { lists = λ i. inl refl; gone = λ j g. g; stuck = λ i j n h. h }

-- Only the table counts.
pub Keeps-same : {but : ℤ} {s t : Sched} → s.procs ≡ t.procs → Keeps but s t
Keeps-same {s} {t} e = record {
  lists = λ i. inl (ap (λ ps. (get_or ps i blank).quit_children) (sym e));
  gone = λ j g. subst (λ ps. Gone (get_or ps j blank)) e g;
  stuck = λ i j n h. subst (λ ps. Stuck i (get_or ps j blank)) e h;
}

emptied :
    {xs ys zs : List ℕ} → (ys ≡ xs) ⊎ (ys ≡ []) → (zs ≡ ys) ⊎ (zs ≡ []) → (zs ≡ xs) ⊎ (zs ≡ [])
emptied (inl p) (inl q) = inl (q ∙ p)
emptied (inr p) (inl q) = inr (q ∙ p)
emptied h (inr q) = inr q

pub Keeps-trans : {but : ℤ} {s t u : Sched} → Keeps but s t → Keeps but t u → Keeps but s u
Keeps-trans a b = record {
  lists = λ i. emptied (a.lists i) (b.lists i);
  gone = λ j g. b.gone j (a.gone j g);
  stuck = λ i j n h. b.stuck i j n (a.stuck i j n h);
}

-- A write changes its own entry of the table, if there is one, and no other.
pub proc-put_proc :
    (s : Sched) (i : ℕ) (p : Pcb) (j : ℕ)
    → (proc (put_proc s i p) j ≡ proc s j) ⊎ ((i ≡ j) × (proc (put_proc s i p) j ≡ p))
proc-put_proc s i p j = get_or-set-cases s.procs i j p blank

module _ (s : Sched) (i : ℕ) (p : Pcb) where
  pub put_proc-Gone :
      (Gone (proc s i) → Gone p) → (j : ℕ) → Gone (proc s j) → Gone (proc (put_proc s i p) j)
  put_proc-Gone gone j g = elim (proc-put_proc s i p j) [
    | inl e ↦ rw e g
    | inr (same, e) ↦ rw e (gone (subst (λ k. Gone (proc s k)) (sym same) g))
  ]

  pub put_proc-Stuck :
      (k j : ℕ)
      → (i ≡ j → Stuck k (proc s i) → Stuck k p)
      → Stuck k (proc s j)
      → Stuck k (proc (put_proc s i p) j)
  put_proc-Stuck k j stuck h = elim (proc-put_proc s i p j) [
    | inl e ↦ rw e h
    | inr (same, e) ↦ rw e (stuck same (subst (λ m. Stuck k (proc s m)) (sym same) h))
  ]

  lists_put :
      (j : ℕ)
      → (p.quit_children ≡ (proc s i).quit_children) ⊎ (p.quit_children ≡ [])
      → ((proc (put_proc s i p) j).quit_children ≡ (proc s j).quit_children)
        ⊎ ((proc (put_proc s i p) j).quit_children ≡ [])
  lists_put j lists = elim (proc-put_proc s i p j) [
    | inl e ↦ inl (ap (λ p. p.quit_children) e)
    | inr (same, e) ↦ rw e (
        subst (λ k. (p.quit_children ≡ (proc s k).quit_children) ⊎ (p.quit_children ≡ [])) same
          lists)
  ]

pub put_proc-Keeps :
    {but : ℤ} {s : Sched} (i : ℕ) (p : Pcb)
    → (p.quit_children ≡ (proc s i).quit_children) ⊎ (p.quit_children ≡ [])
    → (Gone (proc s i) → Gone p)
    → ((k : ℕ) → pos i ≢ but → Stuck k (proc s i) → Stuck k p)
    → Keeps but s (put_proc s i p)
put_proc-Keeps {but} {s} i p lists gone stuck = record {
  lists = λ j. lists_put s i p j lists;
  gone = put_proc-Gone s i p gone;
  stuck =
      λ k j n. put_proc-Stuck s i p k j (λ same. stuck k (subst (λ m. pos m ≢ but) (sym same) n));
}

-- The process may change its state: it has not quit, and waits on no semaphore or is the one pid.
pub record Movable (but : ℤ) (q : ℕ) (p : Pcb) : Type 0 where
  pub not_gone : ¬ Gone p
  pub not_stuck : (i : ℕ) → pos q ≢ but → ¬ Stuck i p

pub runnable-Movable : {but : ℤ} (q : ℕ) (p : Pcb) → runnable p.state ≡ true → Movable but q p
runnable-Movable q p r = record { not_gone = λ g. cc (r, g.1); not_stuck = λ i n h. cc (r, h.1) }

pub running-Movable : {but : ℤ} (q : ℕ) (p : Pcb) → is_running p.state ≡ true → Movable but q p
running-Movable q p r = record { not_gone = λ g. cc (r, g.1); not_stuck = λ i n h. cc (r, h.1) }

pub joining-Movable : {but : ℤ} (q : ℕ) (p : Pcb) → is_joining p.state ≡ true → Movable but q p
joining-Movable q p r = record { not_gone = λ g. cc (r, g.1); not_stuck = λ i n h. cc (r, h.1) }

pub Movable-Keeps :
    {but : ℤ} {s : Sched} (i : ℕ) (p : Pcb)
    → (p.quit_children ≡ (proc s i).quit_children) ⊎ (p.quit_children ≡ [])
    → Movable but i (proc s i)
    → Keeps but s (put_proc s i p)
Movable-Keeps i p lists m =
    put_proc-Keeps i p lists (λ g. absurd (m.not_gone g)) (λ k n h. absurd (m.not_stuck k n h))

index-pos : (size : ℕ) (pid : ℤ) (i : ℕ) → index size pid ≡ some i → pid ≡ pos i
index-pos size (pos n) i e = ground arith
index-pos size (negsuc n) i e = cc

enter_state-Keeps :
    {but : ℤ} (c : Config) (i : ℕ) (state : State) (sid : ℤ) (s : Sched)
    → Movable but i (proc s i)
    → Keeps but s (enter_state c i state sid s)
unfolding enter_state
enter_state-Keeps c i state sid s m = Keeps-trans (Movable-Keeps i _ (inl refl) m) (Keeps-same refl)

pub set_state-Keeps :
    {but : ℤ} (c : Config) (pid : ℤ) (state : State) (sid : ℤ) (s : Sched)
    → ((q : ℕ) → pid ≡ pos q → Movable but q (proc s q))
    → Keeps but s (set_state c pid state sid s).1
unfolding set_state set_known
set_state-Keeps {but} c pid state sid s free = elim (Option-cases (index c.max_proc pid)) [
  | inl e ↦ rw e (ground (arith, Keeps-refl {but = but} s))
  | inr (i, e) ↦ rw e (
      ground (
        arith,
        Keeps-refl {but = but} s,
        enter_state-Keeps {but = but} c i state sid s (free i (index-pos c.max_proc pid i e)),
      ))
]

-- The processes that wait on a semaphore go on to.
abbrev pub Holds : Sched → Sched → Type 0
Holds s t = (i j : ℕ) → Stuck i (proc s j) → Stuck i (proc t j)

pub Keeps-Holds : {s t : Sched} → Keeps minus_one s t → Holds s t
Keeps-Holds k i j h = k.stuck i j (λ e. cc) h
