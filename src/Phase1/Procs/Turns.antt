-- ===== src/Phase1/Procs/Turns.antt =====
-- Whose turn it is: `P1Dispatch(TRUE)` among equals, and what `P1_GetPid` returns.
use small_os_simulator.Common.{
  ℕ, suc, zero, ◌≤◌, ◌<◌, ◌≡◌, refl, sym, ◌∙◌, ap, subst, Bool, true, some, List, [], ◌∷◌, ◌++◌,
  arith, length, get_or, All, find_index, ltb, pos, lt→ltb, Bool-cases, inl, inr,
}
use small_os_simulator.Phase1.Types.{Config, Pcb, Node, Sched, blank}
use small_os_simulator.Phase1.Queue.{swap, shift}
use small_os_simulator.Phase1.Procs.{
  proc, runs, get_pid, dispatch, choose, choose_at, highest_index, best_from, rotate_to,
}
use small_os_simulator.Phase1.Procs.Valid.{IsValid}
use small_os_simulator.Phase1.Procs.Dispatch.{queue-rotate_to}
use mathlib.Core.Option.{some-injective}

abbrev Equals : ℕ → List Node → Type 0
Equals p = All (λ n. n.priority ≡ p)

best_from-Equals : (i best p : ℕ) (q : List Node) → Equals p q → best_from i best p q ≡ best
unfolding best_from
best_from-Equals i best p [] h = refl
best_from-Equals i best p (n ∷ q) h = ground (arith, best_from-Equals (suc i) best p q h.1)

find_index-le_of :
    (procs : List Pcb) (j : ℕ)
    → runs (get_or procs j blank) ≡ true
    → (find_index runs procs ≤ j) × (find_index runs procs < length procs)
unfolding find_index
find_index-le_of [] j h = cc
find_index-le_of (p ∷ procs) zero h = ground arith
find_index-le_of (p ∷ procs) (suc j) h = ground (arith, find_index-le_of procs j h)

-- `P1_GetPid` returns no process behind one that is in state running.
pub get_pid-le :
    (s : Sched) (j : ℕ) → runs (proc s j) ≡ true → (i : ℕ) × (get_pid s ≡ pos i) × (i ≤ j)
unfolding get_pid
get_pid-le s j h =
    let (le, lt) = find_index-le_of s.procs j h in (find_index runs s.procs, rw (lt→ltb _ _ lt), le)

abbrev with_queue : Bool → List Pcb → List Node → Sched
with_queue first procs q = record { procs = procs; queue = q; is_first = first }

module _ (c : Config) (first : Bool) (procs : List Pcb) (n m : Node) (q : List Node) where
  second_best : Equals n.priority (m ∷ q) → highest_index (n ∷ m ∷ q) ≡ 1
  unfolding highest_index
  second_best same = best_from-Equals 2 1 m.priority q (subst (λ p. Equals p q) (sym same.0) same.1)

  turn_at_second :
      Equals n.priority (m ∷ q)
      → choose_at c true 1 (with_queue first procs (n ∷ m ∷ q))
        ≡ rotate_to c 1 (with_queue first procs (n ∷ m ∷ q))
  unfolding choose_at
  turn_at_second same = elim (Bool-cases (ltb m.priority n.priority)) [
    | inl less ↦ absurd (ground arith)
    | inr not_less ↦ rw not_less (elim (Bool-cases (ltb n.priority m.priority)) [
      | inl more ↦ absurd (ground arith)
      | inr not_more ↦ rw not_more
    ])
  ]

  choose-Equals :
      Equals n.priority (m ∷ q)
      → choose c true (with_queue first procs (n ∷ m ∷ q))
        ≡ rotate_to c 1 (with_queue first procs (n ∷ m ∷ q))
  unfolding choose
  choose-Equals same =
      ap (λ h. choose_at c true h (with_queue first procs (n ∷ m ∷ q))) (second_best same)
      ∙ turn_at_second same

  -- With two processes or more in a queue that agrees with the table, all of one priority,
  -- `P1Dispatch(TRUE)` moves the head to the end of the queue and keeps the order of the others.
  pub dispatch_round_robin :
      {t : Sched}
      → IsValid c (with_queue first procs (n ∷ m ∷ q))
      → Equals n.priority (m ∷ q)
      → dispatch c true (with_queue first procs (n ∷ m ∷ q)) ≡ some t
      → t.queue ≡ m ∷ (q ++ n ∷ [])
  unfolding dispatch swap shift
  dispatch_round_robin v same d =
      ap (λ x. x.queue) (sym (some-injective _ _ d) ∙ choose-Equals same)
      ∙ queue-rotate_to v 1 (omega arith)
