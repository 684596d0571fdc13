-- ===== src/Phase1/Procs/Keeps/Dispatch.antt =====
-- What `P1Dispatch` keeps of the processes that have quit or wait on a semaphore.
use small_os_simulator.Common.{
  ℕ, ◌<◌, ◌≤◌, ◌≡◌, refl, subst, Bool, some, List, [], ◌∷◌, arith, length, inl, ℤ,
}
use mathlib.Core.Option.{some-injective}
use small_os_simulator.Phase1.Types.{Config, State, Pcb, Node, Sched}
use small_os_simulator.Phase1.Queue.{count}
use small_os_simulator.Phase1.Procs.{
  proc, current, mark, preempt, rotate_to, choose, choose_at, dispatch, highest_index,
}
use small_os_simulator.Phase1.Procs.Valid.{IsValid}
use small_os_simulator.Phase1.Procs.Moves.{
  queued_known, count-get_or, preempt_lem, started-IsValid, swapped-IsValid, still_queued,
}
use small_os_simulator.Phase1.Procs.Dispatch.{in_range}
use small_os_simulator.Phase1.Procs.Keeps.{
  Keeps, Keeps-same, Keeps-trans, Movable-Keeps, runnable-Movable,
}

mark-Keeps :
    {but : ℤ} {c : Config} {s : Sched} (i : ℕ) (state : State)
    → IsValid c s
    → 1 ≤ count i s.queue
    → Keeps but s (mark s i state)
mark-Keeps {s} i state v h =
    Movable-Keeps i _ (inl refl) (runnable-Movable i (proc s i) ((queued_known v i h).2))

module _ {but : ℤ} {c : Config} {s : Sched} (v : IsValid c s) where
  preempt-Keeps : (h : ℕ) → h < length s.queue → Keeps but s (preempt c h s)
  preempt-Keeps h lt = rw (preempt_lem v h lt) (
      Keeps-trans (Keeps-same refl) (
        Keeps-trans (mark-Keeps _ State.running (swapped-IsValid v h lt) (still_queued v h lt h lt))
          (mark-Keeps _ State.ready (started-IsValid v h lt)
            (still_queued v h lt 0 (omega arith)))))

  rotate_to-Keeps : (h : ℕ) → h < length s.queue → Keeps but s (rotate_to c h s)
  unfolding rotate_to
  rotate_to-Keeps h lt = Keeps-trans (preempt-Keeps h lt) (Keeps-same refl)

  choose-Keeps :
      (rotate : Bool) → highest_index s.queue < length s.queue → Keeps but s (choose c rotate s)
  unfolding choose choose_at
  choose-Keeps rotate lt = ground (
    arith,
    preempt-Keeps (highest_index s.queue) lt,
    rotate_to-Keeps (highest_index s.queue) lt,
    mark-Keeps {but = but} (current s) State.running v (count-get_or s.queue 0 (omega arith)),
  )

module _ {but : ℤ} {c : Config} (first : Bool) (procs : List Pcb) where
  dispatch-Keeps_at :
      (rotate : Bool) (q : List Node) {t : Sched}
      → IsValid c (record { procs = procs; queue = q; is_first = first })
      → dispatch c rotate (record { procs = procs; queue = q; is_first = first }) ≡ some t
      → Keeps but (record { procs = procs; queue = q; is_first = first }) t
  unfolding dispatch
  dispatch-Keeps_at rotate [] v e = cc
  dispatch-Keeps_at rotate (n ∷ []) v e =
      subst (Keeps but _) (some-injective _ _ e)
        (mark-Keeps n.pid State.running v (count-get_or (n ∷ []) 0 (omega arith)))
  dispatch-Keeps_at rotate (n ∷ m ∷ q) v e =
      subst (Keeps but _) (some-injective _ _ e) (choose-Keeps v rotate (in_range n m q))

pub dispatch-Keeps :
    {but : ℤ} {c : Config} {s t : Sched} (rotate : Bool)
    → IsValid c s
    → dispatch c rotate s ≡ some t
    → Keeps but s t
dispatch-Keeps {s} rotate v e = dispatch-Keeps_at s.is_first s.procs rotate s.queue v e
