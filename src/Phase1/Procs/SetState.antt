-- ===== src/Phase1/Procs/SetState.antt =====
-- `P1SetState`: the queue and the table after it.
use small_os_simulator.Common.{
  ℕ, ◌<◌, ◌≡◌, refl, sym, ==→eq, ◌∙◌, ap, true, false, List, [], ◌∷◌, ◌++◌, arith, length, get_or,
  set, All, All-map, All-append, get_or-set, length-set, ◌==◌, if◌then◌else◌, ℤ, index, index-lt,
  inl, inr, Bool-cases, Option-cases,
}
use small_os_simulator.Phase1.Types.{Config, State, Pcb, Node, Sched, blank, is_ready}
use small_os_simulator.Phase1.Queue.{count, insert}
use small_os_simulator.Phase1.Queue.Counts.{
  insert_present, insert_absent, count-append, remove_by_pid_lem, without, count-without,
}
use small_os_simulator.Phase1.Procs.{proc, enter_state, requeue, set_state, settable}
use small_os_simulator.Phase1.Procs.Valid.{IsValid, Priced, weight, room}

pub Priced-set :
    (procs : List Pcb) (i : ℕ) (p : Pcb) (n : Node)
    → p.priority ≡ (get_or procs i blank).priority
    → i < length procs
    → Priced procs n
    → Priced (set procs i p) n
Priced-set procs i p n e lt h = ground (arith, get_or-set procs i n.pid p blank lt)

All-without :
    (procs : List Pcb) (pid : ℕ) (q : List Node)
    → All (Priced procs) q
    → All (Priced procs) (without pid q)
All-without procs pid [] h = tt
All-without procs pid (n ∷ q) h = ground (arith, All-without procs pid q h.1)

module _ {c : Config} {s : Sched} (v : IsValid c s) (i : ℕ) (lt : i < c.max_proc) where
  pub insert_lem :
      (priority : ℕ)
      → (insert c.max_proc i priority s.queue).1 ≡ (
          if 0 == count i s.queue
          then s.queue ++ record { pid = i; priority = priority } ∷ []
          else s.queue)
  insert_lem priority = elim (Bool-cases (0 == count i s.queue)) [
    | inl e ↦
        let none_yet : count i s.queue ≡ 0 = sym (==→eq 0 _ e) in
        rw e (
          ap (λ r. r.1)
            (insert_absent c.max_proc i priority s.queue none_yet
              (room v i lt (sym (v.listed i) ∙ none_yet))))
    | inr e ↦ rw e (insert_present c.max_proc i priority s.queue (ground arith))
  ]

  requeue-Priced :
      (state : State)
      → All (Priced s.procs) (requeue c.max_proc i (proc s i).priority state s.queue)
  unfolding requeue
  requeue-Priced state = elim (Bool-cases (is_ready state)) [
    | inl e ↦
        rw (e, insert_lem)
          (ground (
            arith,
            All-append (Priced s.procs) s.queue
                (record { pid = i; priority = (proc s i).priority } ∷ []) v.priced,
          ))
    | inr e ↦ rw e (rw remove_by_pid_lem (All-without s.procs i s.queue v.priced))
  ]

  count-requeue_ready :
      (j : ℕ)
      → (proc s i).is_being_used ≡ true
      → count j (requeue c.max_proc i (proc s i).priority State.ready s.queue)
        ≡ (if i == j then 1 else count j s.queue)
  unfolding requeue count
  count-requeue_ready j used = rw insert_lem (
      ground (
        arith,
        v.listed i,
        count-append j s.queue (record { pid = i; priority = (proc s i).priority } ∷ []),
      ))

  count-requeue_other :
      (j : ℕ) (state : State)
      → is_ready state ≡ false
      → count j (requeue c.max_proc i (proc s i).priority state s.queue)
        ≡ (if i == j then 0 else count j s.queue)
  unfolding requeue
  count-requeue_other j state e =
      rw (e, remove_by_pid_lem) (ground (arith, count-without j i s.queue, v.listed i))

  entered :
      (state : State) (sid : ℤ) (j : ℕ)
      → (proc s i).is_being_used ≡ true
      → settable state ≡ true
      → count j (requeue c.max_proc i (proc s i).priority state s.queue)
        ≡ weight (proc (enter_state c i state sid s) j)
  unfolding enter_state
  entered State.ready sid j used ok =
      rw (count-requeue_ready j used, get_or-set s.procs i j _ blank (rw v.sized lt))
        (ground (arith, v.listed j))
  entered State.free sid j used ok = cc
  entered State.running sid j used ok = cc
  entered state sid j used ok =
      rw (count-requeue_other j state refl, get_or-set s.procs i j _ blank (rw v.sized lt))
        (ground (arith, v.listed j))

  pub enter_state-IsValid :
      (state : State) (sid : ℤ)
      → (proc s i).is_being_used ≡ true
      → settable state ≡ true
      → IsValid c (enter_state c i state sid s)
  unfolding enter_state
  enter_state-IsValid state sid used ok = record {
    sized = length-set s.procs i _ ∙ v.sized;
    listed = λ j. entered state sid j used ok;
    priced = All-map _ (λ n. Priced-set s.procs i _ n refl (rw v.sized lt)) (requeue-Priced state);
  }

-- `P1SetState`, whatever its arguments and whatever it returns, leaves a queue and a table that
-- agree if they did before.
pub set_state-IsValid :
    {c : Config} {s : Sched} (pid : ℤ) (state : State) (sid : ℤ)
    → IsValid c s
    → IsValid c (set_state c pid state sid s).1
unfolding set_state
set_state-IsValid {c} {s} pid state sid v = elim (Option-cases (index c.max_proc pid)) [
  | inl e ↦ rw e (ground arith)
  | inr (i, e) ↦
      rw e (ground (arith, enter_state-IsValid v i (index-lt c.max_proc pid i e) state sid))
]
