-- ===== src/Phase1/Procs/Start.antt =====
-- `P1ProcInit`: the queue and the table that it leaves.
use small_os_simulator.Common.{ℕ, zero, suc, ◌≡◌, refl, ◌∙◌, ap, sym, List, [], ◌∷◌, length, get_or}
use small_os_simulator.Phase1.Types.{Config, Pcb, Sched, blank}
use small_os_simulator.Phase1.Queue.{count}
use small_os_simulator.Phase1.Procs.{clear_procs, proc_init}
use small_os_simulator.Phase1.Procs.Valid.{IsValid, weight}

length-clear_procs : (ps : List Pcb) → length (clear_procs ps) ≡ length ps
unfolding clear_procs
length-clear_procs [] = refl
length-clear_procs (p ∷ ps) = ap suc (length-clear_procs ps)

weight-clear_procs : (ps : List Pcb) (i : ℕ) → weight (get_or (clear_procs ps) i blank) ≡ 0
unfolding clear_procs
weight-clear_procs [] i = refl
weight-clear_procs (p ∷ ps) zero = refl
weight-clear_procs (p ∷ ps) (suc i) = weight-clear_procs ps i

-- `P1ProcInit` on a table of P1_MAXPROC processes and an empty queue, whatever the table holds,
-- leaves a queue and a table that agree.
pub proc_init-IsValid :
    (c : Config) (s : Sched) → length s.procs ≡ c.max_proc → s.queue ≡ [] → IsValid c (proc_init s)
unfolding proc_init count
proc_init-IsValid c s sized empty = record {
  sized = length-clear_procs s.procs ∙ sized;
  listed = λ i. rw empty (sym (weight-clear_procs s.procs i));
  priced = rw empty tt;
}
