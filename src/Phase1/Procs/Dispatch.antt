-- ===== src/Phase1/Procs/Dispatch.antt =====
-- What `P1Dispatch` chooses.
use small_os_simulator.Common.{
  ℕ, ◌<◌, ◌≡◌, refl, ◌∙◌, ap, subst, Bool, some, List, [], ◌∷◌, arith, length,
}
use mathlib.Core.Option.{some-injective}
use small_os_simulator.Phase1.Types.{Config, State, Pcb, Node, Sched}
use small_os_simulator.Phase1.Queue.{count, swap, shift}
use small_os_simulator.Phase1.Queue.Counts.{count-swap, count-shift}
use small_os_simulator.Phase1.Procs.{current, preempt, rotate_to, choose, dispatch, highest_index}
use small_os_simulator.Phase1.Procs.Valid.{IsValid, Priced}
use small_os_simulator.Phase1.Procs.Best.{highest_index-IsBest}
use small_os_simulator.Phase1.Procs.Moves.{
  mark-IsValid, requeued-IsValid, count-get_or, All-shift, preempt_lem, preempt-IsValid,
}

module _ {c : Config} {s : Sched} (v : IsValid c s) (h : ℕ) (lt : h < length s.queue) where
  pub queue-preempt : (preempt c h s).queue ≡ swap 0 h s.queue
  queue-preempt = ap (λ t. t.queue) (preempt_lem v h lt)

  rotate_to-IsValid : IsValid c (rotate_to c h s)
  unfolding rotate_to
  rotate_to-IsValid =
      let u = preempt-IsValid v h lt in
      requeued-IsValid u _ (λ j. count-shift j h _) (All-shift (Priced _) h _ u.priced)

  pub queue-rotate_to : (rotate_to c h s).queue ≡ shift h (swap 0 h s.queue)
  unfolding rotate_to
  queue-rotate_to = ap (shift h) queue-preempt

  count-rotate_to : (j : ℕ) → count j (rotate_to c h s).queue ≡ count j s.queue
  count-rotate_to j =
      rw queue-rotate_to (count-shift j h _ ∙ count-swap j 0 h s.queue (omega arith) lt)

module _ {c : Config} {s : Sched} (v : IsValid c s) where
  choose-IsValid :
      (rotate : Bool) → highest_index s.queue < length s.queue → IsValid c (choose c rotate s)
  unfolding choose
  choose-IsValid rotate lt = ground (
    arith,
    preempt-IsValid v (highest_index s.queue) lt,
    rotate_to-IsValid v (highest_index s.queue) lt,
    mark-IsValid v (current s) State.running (count-get_or s.queue 0 (omega arith)) refl,
  )

pub in_range : (n m : Node) (q : List Node) → highest_index (n ∷ m ∷ q) < length (n ∷ m ∷ q)
in_range n m q = (highest_index-IsBest n m q).1

module _ {c : Config} (first : Bool) (procs : List Pcb) where
  dispatch-IsValid_at :
      (rotate : Bool) (q : List Node) {t : Sched}
      → IsValid c (record { procs = procs; queue = q; is_first = first })
      → dispatch c rotate (record { procs = procs; queue = q; is_first = first }) ≡ some t
      → IsValid c t
  unfolding dispatch
  dispatch-IsValid_at rotate [] v e = cc
  dispatch-IsValid_at rotate (n ∷ []) v e =
      subst (IsValid c) (some-injective _ _ e)
        (mark-IsValid v n.pid State.running (count-get_or (n ∷ []) 0 (omega arith)) refl)
  dispatch-IsValid_at rotate (n ∷ m ∷ q) v e =
      subst (IsValid c) (some-injective _ _ e) (choose-IsValid v rotate (in_range n m q))

-- From a scheduler whose queue and table agree, whenever `P1Dispatch` does not halt, what it leaves
-- agrees again: exactly the running and ready processes are queued, once each, with their
-- priorities.
pub dispatch-IsValid :
    {c : Config} {s t : Sched} (rotate : Bool)
    → IsValid c s
    → dispatch c rotate s ≡ some t
    → IsValid c t
dispatch-IsValid {s} rotate v e = dispatch-IsValid_at s.is_first s.procs rotate s.queue v e
