-- ===== src/Phase1/Processes/Keep.antt =====
-- Writes of a PCB that leave its priority and its place in or out of the queue alone.
use small_os_simulator.Common.{
  ℕ, zero, suc, ap, ◌≡◌, refl, ◌∙◌, List, [], ◌∷◌, arith, length, set, All-map, get_or-set,
  length-set, ◌≤◌,
}
use native.Mathlib.Decide.{dec_lt}
use small_os_simulator.Phase1.Types.{Config, Pcb, Sched, blank}
use small_os_simulator.Phase1.Procs.{proc, put_proc}
use small_os_simulator.Phase1.Procs.Valid.{IsValid, weight}
use small_os_simulator.Phase1.Procs.SetState.{Priced-set}
use small_os_simulator.Phase1.Processes.{reparent, add_child}

set_out : (xs : List Pcb) (i : ℕ) (p : Pcb) → length xs ≤ i → set xs i p ≡ xs
set_out [] i p h = refl
set_out (x ∷ xs) zero p h = absurd (omega arith)
set_out (x ∷ xs) (suc i) p h = ap (◌∷◌ x) (set_out xs i p (omega arith))

pub put_proc-IsValid :
    {c : Config} {s : Sched} (i : ℕ) (p : Pcb)
    → IsValid c s
    → p.priority ≡ (proc s i).priority
    → weight p ≡ weight (proc s i)
    → IsValid c (put_proc s i p)
put_proc-IsValid {c} {s} i p v same_priority same_weight = elim (dec_lt i c.max_proc) [
  | yes lt ↦ record {
    sized = length-set s.procs i p ∙ v.sized;
    listed = λ j.
        rw (get_or-set s.procs i j p blank (rw v.sized lt))
          (ground (arith, v.listed i, v.listed j));
    priced = All-map _ (λ n. Priced-set s.procs i p n same_priority (rw v.sized lt)) v.priced;
  }
  | no out ↦ rw (set_out s.procs i p (omega (arith, v.sized))) v
]

pub add_child-IsValid :
    {c : Config} {s : Sched} (parent child : ℕ) → IsValid c s → IsValid c (add_child s parent child)
add_child-IsValid parent child v = put_proc-IsValid parent _ v refl refl

pub reparent-IsValid :
    {c : Config} (ks : List ℕ) {s : Sched} → IsValid c s → IsValid c (reparent ks s)
unfolding reparent
reparent-IsValid [] v = v
reparent-IsValid (k ∷ ks) v =
    reparent-IsValid ks (add_child-IsValid 0 k (put_proc-IsValid k _ v refl refl))
