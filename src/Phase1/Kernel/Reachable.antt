-- ===== src/Phase1/Kernel/Reachable.antt =====
-- The states that phase 1 reaches.
use small_os_simulator.Common.{
  ℕ, ◌≡◌, refl, sym, subst, true, false, Option, some, ℤ, minus_one, arith, find_index, length, ltb,
  ltb→lt,
}
use small_os_simulator.Phase1.Types.{Config, Code, State, Sched}
use small_os_simulator.Phase1.Procs.{get_pid, current, proc, set_state, dispatch}
use small_os_simulator.Phase1.Procs.Valid.{IsValid}
use small_os_simulator.Phase1.Procs.SetState.{set_state-IsValid}
use small_os_simulator.Phase1.Procs.Dispatch.{dispatch-IsValid}
use small_os_simulator.Phase1.Procs.Keeps.{Gone, Keeps-trans}
use small_os_simulator.Phase1.Procs.Keeps.Dispatch.{dispatch-Keeps}
use small_os_simulator.Phase1.Contexts.{Contexts}
use small_os_simulator.Phase1.Processes.{get_child_status, reap, has_tag}
use small_os_simulator.Phase1.Processes.Keep.{put_proc-IsValid}
use small_os_simulator.Phase1.Processes.Fork.{fork-ForkedWell}
use small_os_simulator.Phase1.Processes.Quit.{quit-QuitsWell}
use small_os_simulator.Phase1.Processes.Gone.{leaves-IsValid}
use small_os_simulator.Phase1.Processes.Kept.{fork-Keeps}
use small_os_simulator.Phase1.Processes.Family.{Family, entries, entry}
use small_os_simulator.Phase1.Processes.Family.Quit.{Goes, quit-Goes, Keeps-Goes, Goes-trans}
use small_os_simulator.Phase1.Processes.Family.Reap.{get_child_status-Goes}
use small_os_simulator.Phase1.Sems.Laws.{p_round-IsValid, v_update-IsValid}
use small_os_simulator.Phase1.Join.{joined, waits, join_with, join_round}
use small_os_simulator.Phase1.Kernel.{
  Kernel, Step, forks, quits, dispatches, blocks_in_join, joins, creates, frees, downs, ups, Reach,
  here, next,
}
use small_os_simulator.Phase1.Kernel.Sound.{Sound, Holds-Waits, sem_create-Waits, sem_free-Waits}
use small_os_simulator.Phase1.Kernel.Waiting.{
  running_changes, valid_sid_lem, p_round-Waits, p_round-Family, v_update-Waits, v_update-Family,
}

reap-IsValid :
    {c : Config} {s : Sched} (i : ℕ) (x : Contexts)
    → IsValid c s
    → Gone (proc s (entry s (current s) i))
    → IsValid c (reap i s x).0
unfolding reap
reap-IsValid {s} i x v gone =
    put_proc-IsValid (current s) _ (put_proc-IsValid _ _ v refl (sym (ground (arith, gone)))) refl
      refl

get_child_status-IsValid :
    {c : Config} {s : Sched} (tag : ℤ) (x : Contexts)
    → IsValid c s
    → Family s
    → IsValid c (get_child_status tag s x).2
unfolding get_child_status
get_child_status-IsValid {c} {s} tag x v f =
    let i = find_index (has_tag tag s) (proc s (current s)).quit_children in
    ground (arith, v, reaped i)
  where
    reaped : (i : ℕ) → ltb i (length (entries s (current s))) ≡ true → IsValid c (reap i s x).0
    reaped i found = reap-IsValid i x v (f.quits (current s) i (ltb→lt i _ found))

-- Setting the running process joining, and the dispatch.
joining-Goes :
    {c : Config} {s t : Sched}
    → IsValid c s
    → Family s
    → dispatch c false (set_state c (get_pid s) State.joining minus_one s).1 ≡ some t
    → Goes s t
joining-Goes {c} {s} v f e = Keeps-Goes f (
    Keeps-trans (running_changes c s State.joining minus_one)
      (dispatch-Keeps false (set_state-IsValid (get_pid s) State.joining minus_one v) e))

join_with-waits :
    {c : Config} {s t : Sched} {y : Contexts} (r : Code × Option (ℕ × ℤ) × Sched × Contexts)
    → IsValid c r.2
    → Goes s r.2
    → join_with c r ≡ waits (some t) y
    → IsValid c t × Goes s t
unfolding join_with
join_with-waits {c} {s} {t} (Code.no_quit, child, u, x) v g e =
    let dispatched : dispatch c false (set_state c (get_pid u) State.joining minus_one u).1
        ≡ some t =
      cc in
    (
      dispatch-IsValid false (set_state-IsValid (get_pid u) State.joining minus_one v) dispatched,
      Goes-trans g (joining-Goes v g.family dispatched),
    )
join_with-waits (code, child, u, x) v g e = cc

join_with-joined :
    {c : Config} {s t : Sched} {y : Contexts} {code : Code} {child : Option (ℕ × ℤ)}
    (r : Code × Option (ℕ × ℤ) × Sched × Contexts)
    → IsValid c r.2
    → Goes s r.2
    → join_with c r ≡ joined code child t y
    → IsValid c t × Goes s t
unfolding join_with
join_with-joined {c} {s} {t} (Code.success, child, u, x) v g e =
    let same : u ≡ t = cc in subst (λ t. IsValid c t × Goes s t) same (v, g)
join_with-joined {c} {s} {t} (Code.no_children, child, u, x) v g e =
    let same : u ≡ t = cc in subst (λ t. IsValid c t × Goes s t) same (v, g)
join_with-joined {c} {s} {t} (Code.invalid_tag, child, u, x) v g e =
    let same : u ≡ t = cc in subst (λ t. IsValid c t × Goes s t) same (v, g)
join_with-joined (code, child, u, x) v g e = cc

-- A change of the scheduler alone.
goes :
    {c : Config} {k : Kernel} {t : Sched} {y : Contexts}
    → Sound c k
    → IsValid c t
    → Goes k.sched t
    → Sound c (record k { sched = t; contexts = y })
goes {k} {t} h v g = record {
  valid = v;
  family = g.family;
  waits = Holds-Waits k.sched t k.sems g.holds h.waits;
}

-- A step keeps the state sound.
pub Step-Sound :
    {c : Config} {wrapper : ℕ} {k l : Kernel} → Sound c k → Step c wrapper k l → Sound c l
unfolding join_round
Step-Sound {c} {wrapper} {k} h (forks a e) =
    goes h (fork-ForkedWell wrapper a k.contexts h.valid e).valid
      (Keeps-Goes h.family (fork-Keeps c wrapper a k.contexts e))
Step-Sound {c} {k} h (quits status e) =
    goes h (leaves-IsValid (quit-QuitsWell (get_pid k.sched) status h.valid) e)
      (quit-Goes c (get_pid k.sched) status h.valid h.family refl e)
Step-Sound h (dispatches rotate e) =
    goes h (dispatch-IsValid rotate h.valid e)
      (Keeps-Goes h.family (dispatch-Keeps rotate h.valid e))
Step-Sound {k} h (blocks_in_join tag e) =
    let r =
      join_with-waits (get_child_status tag k.sched k.contexts)
        (get_child_status-IsValid tag k.contexts h.valid h.family)
        (get_child_status-Goes tag k.sched k.contexts h.family) e in
    goes h r.0 r.1
Step-Sound {k} h (joins tag e) =
    let r =
      join_with-joined (get_child_status tag k.sched k.contexts)
        (get_child_status-IsValid tag k.contexts h.valid h.family)
        (get_child_status-Goes tag k.sched k.contexts h.family) e in
    goes h r.0 r.1
Step-Sound {c} {k} h (creates name value) = record {
  valid = h.valid;
  family = h.family;
  waits = sem_create-Waits k.sched c name value k.sems h.waits;
}
Step-Sound {k} h (frees sid) = record {
  valid = h.valid;
  family = h.family;
  waits = sem_free-Waits k.sched sid k.sems h.waits;
}
Step-Sound {k} h (downs sid i e) =
    let (lt, used) = valid_sid_lem sid k.sems i e in
    record {
      valid = p_round-IsValid i k.sems h.valid;
      family = p_round-Family i k.sems h.valid h.family;
      waits = p_round-Waits i k.sems h.valid h.waits used;
    }
Step-Sound {c} {k} h (ups sid i e) =
    let (lt, used) = valid_sid_lem sid k.sems i e in
    record {
      valid = v_update-IsValid i k.sems h.valid;
      family = v_update-Family c k.sched i k.sems h.waits used h.family;
      waits = v_update-Waits c k.sched i k.sems lt h.waits used;
    }

-- From a sound state of phase 1, every state that is reached by any number of steps in any order is
-- sound, where a step is a fork, a quit of the running process, a dispatch, a round of a join, the
-- creation or release of a semaphore, or the effect of a P or V on a semaphore in use. Sound means
-- that exactly the running and ready processes are in the dispatch queue, once each, with their
-- priorities; that every entry of a list of quit children is a process in state quit, and no
-- process is in two places of those lists; and that the processes in the waiting list of a
-- semaphore in use are blocked on that semaphore, each in one place.
pub Reach-Sound :
    {c : Config} {wrapper : ℕ} {k l : Kernel} → Sound c k → Reach c wrapper k l → Sound c l
Reach-Sound h here = h
Reach-Sound h (next r step) = Step-Sound (Reach-Sound h r) step
