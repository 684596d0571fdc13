-- ===== src/Phase1/Procs/Moves.antt =====
-- The steps of `P1Dispatch` on a valid scheduler: marking a queued process, swapping two entries and
-- sending one to the end.
use small_os_simulator.Common.{
  ℕ, zero, suc, ◌≤◌, ◌<◌, ◌≡◌, refl, sym, ◌∙◌, ap, true, List, [], ◌∷◌, arith, length, get_or, set,
  All, All-map, All-append, All-set, All-get_or, get_or-set, get_or-set_self, get_or-set_ne, ==→eq,
  ==→ne, length-set, ◌==◌, Bool-cases, pos, ℤ, inl, inr,
}
use mathlib.Core.Path.{ap₂}
use small_os_simulator.Phase1.Types.{Config, State, Node, Sched, blank, blank_node}
use small_os_simulator.Phase1.Queue.{count, swap, shift}
use small_os_simulator.Phase1.Queue.Counts.{insert_present, count-swap}
use small_os_simulator.Phase1.Procs.{
  proc, mark, current, set_state, enter_state, requeue, hand_over, preempt,
}
use small_os_simulator.Phase1.Procs.Valid.{IsValid, Priced, runnable, count_out}
use small_os_simulator.Phase1.Procs.SetState.{Priced-set}

module _ {c : Config} {s : Sched} (v : IsValid c s) where
  -- A queued process is one of the table, in use and runnable.
  pub queued_known :
      (i : ℕ)
      → 1 ≤ count i s.queue
      → (i < c.max_proc) × ((proc s i).is_being_used ≡ true) × (runnable (proc s i).state ≡ true)
  queued_known i h = ground (arith, v.listed i, count_out v i)

  pub mark-IsValid :
      (i : ℕ) (state : State)
      → 1 ≤ count i s.queue
      → runnable state ≡ true
      → IsValid c (mark s i state)
  mark-IsValid i state h ok = record {
    sized = length-set s.procs i _ ∙ v.sized;
    listed = λ j.
        rw
          (get_or-set s.procs i j (record (proc s i) { state = state }) blank
            (rw v.sized ((queued_known i h).0)))
          (ground (arith, v.listed i, v.listed j, queued_known i h));
    priced =
        All-map _ (λ n. Priced-set s.procs i _ n refl (rw v.sized ((queued_known i h).0))) v.priced;
  }

  pub requeued-IsValid :
      (q : List Node)
      → ((j : ℕ) → count j q ≡ count j s.queue)
      → All (Priced s.procs) q
      → IsValid c (record s { queue = q })
  requeued-IsValid q same p = record {
    sized = v.sized;
    listed = λ j. same j ∙ v.listed j;
    priced = p;
  }

  -- Setting a queued process ready leaves the queue as it is.
  pub ready_again :
      (i : ℕ) (sid : ℤ)
      → 1 ≤ count i s.queue
      → (set_state c (pos i) State.ready sid s).1 ≡ mark s i State.ready
  unfolding set_state enter_state requeue
  ready_again i sid h =
      ground (arith, queued_known i h, insert_present c.max_proc i (proc s i).priority s.queue h)

pub count-get_or : (q : List Node) (i : ℕ) → i < length q → 1 ≤ count (get_or q i blank_node).pid q
unfolding count
count-get_or [] i h = absurd (omega arith)
count-get_or (n ∷ q) zero h = ground arith
count-get_or (n ∷ q) (suc i) h = ground (arith, count-get_or q i)

module _ {κ} (P : Node → Type κ) where
  pub All-swap :
      (i j : ℕ) (q : List Node) → i < length q → j < length q → All P q → All P (swap i j q)
  unfolding swap
  All-swap i j q hi hj h = elim (Bool-cases (i == j)) [
    | inl e ↦ rw e h
    | inr n ↦ rw n (
        All-set P _ j _ (All-set P q i _ h (All-get_or P q j blank_node h hj))
          (All-get_or P q i blank_node h hi))
  ]

  pub All-shift : (i : ℕ) (q : List Node) → All P q → All P (shift i q)
  unfolding shift
  All-shift i [] h = h
  All-shift zero (n ∷ q) h = All-append P q (n ∷ []) h.1 (h.0, tt)
  All-shift (suc i) (n ∷ q) h = (h.0, All-shift i q h.1)

pub get_or-swap_left :
    (i j : ℕ) (q : List Node)
    → i < length q
    → j < length q
    → get_or (swap i j q) i blank_node ≡ get_or q j blank_node
unfolding swap
get_or-swap_left i j q hi hj = elim (Bool-cases (i == j)) [
  | inl e ↦ rw e (ap (λ k. get_or q k blank_node) (==→eq i j e))
  | inr n ↦
      rw
        (
          n,
          get_or-set_ne (set q i (get_or q j blank_node)) j i (get_or q i blank_node) blank_node
              (λ e. ==→ne i j n (sym e)),
        )
        (get_or-set_self q i (get_or q j blank_node) blank_node hi)
]

pub get_or-swap_right :
    (i j : ℕ) (q : List Node)
    → i < length q
    → j < length q
    → get_or (swap i j q) j blank_node ≡ get_or q i blank_node
unfolding swap
get_or-swap_right i j q hi hj = elim (Bool-cases (i == j)) [
  | inl e ↦ rw e (ap (λ k. get_or q k blank_node) (sym (==→eq i j e)))
  | inr n ↦ rw n (
      get_or-set_self (set q i (get_or q j blank_node)) j (get_or q i blank_node) blank_node
        (rw length-set hj))
]

module _ {c : Config} {s : Sched} (v : IsValid c s) (h : ℕ) (lt : h < length s.queue) where
  abbrev swapped : Sched
  swapped = record s { queue = swap 0 h s.queue }

  some_head : 0 < length s.queue
  some_head = omega arith

  pub swapped-IsValid : IsValid c swapped
  swapped-IsValid =
      requeued-IsValid v _ (λ j. count-swap j 0 h s.queue some_head lt)
        (All-swap (Priced s.procs) 0 h s.queue some_head lt v.priced)

  pub still_queued :
      (i : ℕ) → i < length s.queue → 1 ≤ count (get_or s.queue i blank_node).pid swapped.queue
  still_queued i hi = rw (count-swap _ 0 h s.queue some_head lt) (count-get_or s.queue i hi)

  abbrev pub started : Sched
  started = mark swapped (get_or s.queue h blank_node).pid State.running

  pub started-IsValid : IsValid c started
  started-IsValid = mark-IsValid swapped-IsValid _ State.running (still_queued h lt) refl

  -- After the swap, the former entry `h` runs and the former head is ready.
  pub preempt_lem :
      preempt c h s
      ≡ mark
          (mark
            (record s { queue = swap 0 h s.queue })
            (get_or s.queue h blank_node).pid
            State.running)
          (current s)
          State.ready
  unfolding preempt hand_over
  preempt_lem =
      ap₂ (λ x y. hand_over c x.pid y.pid swapped) (get_or-swap_left 0 h s.queue some_head lt)
        (get_or-swap_right 0 h s.queue some_head lt)
      ∙ ready_again started-IsValid (current s) (pos 0) (still_queued 0 some_head)

  pub preempt-IsValid : IsValid c (preempt c h s)
  preempt-IsValid =
      rw preempt_lem
        (mark-IsValid started-IsValid (current s) State.ready (still_queued 0 some_head) refl)
