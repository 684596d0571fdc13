-- ===== src/Phase1/Procs/Highest.antt =====
-- The process at the head of the queue after `P1Dispatch`.
use small_os_simulator.Common.{
  ℕ, zero, suc, ◌≤◌, ◌<◌, ◌≡◌, refl, sym, ◌∙◌, ap, subst, Bool, not, ◌||◌, some, List, [], ◌∷◌,
  arith, length, get_or, All-map, ltb, ltb→lt, Bool-cases, inl, inr, get_or-set_self, get_or-set_ne,
  ◌≢◌,
}
use mathlib.Core.Option.{some-injective}
use small_os_simulator.Phase1.Types.{Config, State, Pcb, Node, Sched, blank, blank_node}
use small_os_simulator.Phase1.Queue.{count, shift}
use small_os_simulator.Phase1.Procs.{
  proc, mark, current, preempt, rotate_to, choose, dispatch, highest_index, best_priority,
  head_priority,
}
use small_os_simulator.Phase1.Procs.Valid.{IsValid, count-le_one}
use small_os_simulator.Phase1.Procs.Best.{AtLeast, IsBest, highest_index-IsBest}
use small_os_simulator.Phase1.Procs.Moves.{
  queued_known, count-get_or, All-shift, All-swap, preempt_lem, get_or-swap_left,
}
use small_os_simulator.Phase1.Procs.Dispatch.{queue-preempt}

-- The head runs, and no queued process has a smaller priority number.
pub record RunsHighest (s : Sched) : Type 0 where
  pub best : AtLeast (head_priority s.queue) s.queue
  pub runs : (proc s (current s)).state ≡ State.running

-- Two entries of a queue without repetition have different pids.
head_differs :
    (n : Node) (q : List Node) (h : ℕ)
    → count n.pid (n ∷ q) ≤ 1
    → 0 < h
    → h < length (n ∷ q)
    → (get_or (n ∷ q) h blank_node).pid ≢ n.pid
unfolding count
head_differs n q zero once pos lt = absurd (omega arith)
head_differs n q (suc h) once pos lt = ground (arith, count-get_or q h)

get_or-shift :
    (h : ℕ) (q : List Node) → 0 < h → get_or (shift h q) 0 blank_node ≡ get_or q 0 blank_node
unfolding shift
get_or-shift h [] lt = refl
get_or-shift zero (n ∷ q) lt = absurd (omega arith)
get_or-shift (suc h) (n ∷ q) lt = refl

module _ {c : Config} {s : Sched} (v : IsValid c s) (h : ℕ) (lt : h < length s.queue) where
  head-preempt : get_or (preempt c h s).queue 0 blank_node ≡ get_or s.queue h blank_node
  head-preempt = rw (queue-preempt v h lt) (get_or-swap_left 0 h s.queue (omega arith) lt)

  preempt_state :
      (get_or s.queue h blank_node).pid ≢ current s
      → (proc (preempt c h s) (get_or s.queue h blank_node).pid).state ≡ State.running
  preempt_state ne =
      ap (λ t. (proc t (get_or s.queue h blank_node).pid).state) (preempt_lem v h lt)
      ∙ ap (λ p. p.state) (get_or-set_ne _ (current s) _ _ blank (λ e. ne (sym e)))
      ∙ ap (λ p. p.state)
          (get_or-set_self s.procs _ _ blank
            (rw v.sized ((queued_known v _ (count-get_or s.queue h lt)).0)))

  preempt-RunsHighest :
      (get_or s.queue h blank_node).pid ≢ current s
      → AtLeast (get_or s.queue h blank_node).priority s.queue
      → RunsHighest (preempt c h s)
  preempt-RunsHighest ne best = record {
    best =
        subst (λ n. AtLeast n.priority (preempt c h s).queue) (sym head-preempt)
          (rw (queue-preempt v h lt) (All-swap _ 0 h s.queue (omega arith) lt best));
    runs = ap (λ n. (proc (preempt c h s) n.pid).state) head-preempt ∙ preempt_state ne;
  }

  rotate_to-RunsHighest :
      (get_or s.queue h blank_node).pid ≢ current s
      → 0 < h
      → AtLeast (get_or s.queue h blank_node).priority s.queue
      → RunsHighest (rotate_to c h s)
  unfolding rotate_to
  rotate_to-RunsHighest ne pos best =
      let u = preempt-RunsHighest ne best in
      record {
        best =
            subst (λ n. AtLeast n.priority (shift h (preempt c h s).queue))
              (sym (get_or-shift h _ pos)) (All-shift _ h _ u.best);
        runs = ap (λ n. (proc (preempt c h s) n.pid).state) (get_or-shift h _ pos) ∙ u.runs;
      }

mark-RunsHighest :
    {c : Config} {s : Sched}
    → IsValid c s
    → 0 < length s.queue
    → AtLeast (head_priority s.queue) s.queue
    → RunsHighest (mark s (current s) State.running)
mark-RunsHighest {s} v lt best = record {
  best = best;
  runs =
      ap (λ p. p.state)
        (get_or-set_self s.procs _ _ blank
          (rw v.sized ((queued_known v _ (count-get_or s.queue 0 lt)).0)));
}

abbrev with_queue : Bool → List Pcb → List Node → Sched
with_queue first procs q = record { procs = procs; queue = q; is_first = first }

module _ {c : Config} (first : Bool) (procs : List Pcb) where
  choose-RunsHighest :
      (rotate : Bool) (n m : Node) (q : List Node)
      → IsValid c (with_queue first procs (n ∷ m ∷ q))
      → RunsHighest (choose c rotate (with_queue first procs (n ∷ m ∷ q)))
  unfolding choose
  choose-RunsHighest rotate n m q v = elim (Bool-cases (ltb (best_priority w) n.priority)) [
    | inl less ↦
        rw less (preempt-RunsHighest v h best.1 differs (omega (arith, ltb→lt _ _ less), best.2))
    | inr same ↦ rw same (elim (Bool-cases (not rotate || ltb n.priority (best_priority w))) [
      | inl stay ↦ rw stay (
          mark-RunsHighest v (omega arith)
            (omega arith, All-map (m ∷ q) (λ x k. ground arith) best.2))
      | inr turn ↦ rw turn (rotate_to-RunsHighest v h best.1 differs best.0 (ground arith, best.2))
    ])
  ]
    where
      w : List Node
      w = n ∷ m ∷ q

      h : ℕ
      h = highest_index w

      best : IsBest w h
      best = highest_index-IsBest n m q

      differs : (get_or w h blank_node).pid ≢ n.pid
      differs = head_differs n (m ∷ q) h (count-le_one v n.pid) best.0 best.1

  dispatch-RunsHighest_at :
      (rotate : Bool) (q : List Node) {t : Sched}
      → IsValid c (with_queue first procs q)
      → dispatch c rotate (with_queue first procs q) ≡ some t
      → RunsHighest t
  unfolding dispatch
  dispatch-RunsHighest_at rotate [] v e = cc
  dispatch-RunsHighest_at rotate (n ∷ []) v e =
      subst RunsHighest (some-injective _ _ e) (mark-RunsHighest v (omega arith) (omega arith))
  dispatch-RunsHighest_at rotate (n ∷ m ∷ q) v e =
      subst RunsHighest (some-injective _ _ e) (choose-RunsHighest rotate n m q v)

-- From a scheduler whose queue and table agree, whenever `P1Dispatch` does not halt, the process at
-- the head of the queue, to which it switches, is in state running and no entry of the queue has a
-- smaller priority number.
pub dispatch-RunsHighest :
    {c : Config} {s t : Sched} (rotate : Bool)
    → IsValid c s
    → dispatch c rotate s ≡ some t
    → RunsHighest t
dispatch-RunsHighest {s} rotate v e = dispatch-RunsHighest_at s.is_first s.procs rotate s.queue v e
