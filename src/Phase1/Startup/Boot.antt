-- ===== src/Phase1/Startup/Boot.antt =====
-- What `startup` leaves, and what is reached from there.
use small_os_simulator.Common.{
  ℕ, zero, suc, ◌<◌, ◌≤◌, ◌≡◌, refl, ◌∙◌, ap, true, none, some, List, [], ◌∷◌, arith, length,
  find_index, ◌&&◌, not, pos, minus_one, get_or, false,
}
use small_os_simulator.Phase1.Types.{Config, Code, Name, Pcb, Sched, blank}
use small_os_simulator.Phase1.Procs.{proc, proc_init, clear_procs}
use small_os_simulator.Phase1.Procs.Start.{proc_init-IsValid}
use small_os_simulator.Phase1.Contexts.{
  Context, Contexts, context_table_init, clear_slots, context_create, take_slot, is_free,
}
use small_os_simulator.Phase1.Processes.{
  ForkArgs, created, fork, fork_check, check_name, scan, start, admit, enlist, wants_cpu,
}
use small_os_simulator.Phase1.Processes.Fork.{fork-ForkedWell}
use small_os_simulator.Phase1.Devices.{Devices}
use small_os_simulator.Phase1.Kernel.{Kernel, Reach}
use small_os_simulator.Phase1.Kernel.Reachable.{Reach-Sound}
use small_os_simulator.Phase1.Kernel.Sound.{Sound, Waits, sem_create-Waits}
use small_os_simulator.Phase1.Processes.Family.{Family, Keeps-Family, entries}
use small_os_simulator.Phase1.Processes.Kept.{fork-Keeps}
use small_os_simulator.Phase1.Sems.{Sem, sem, sem_init}
use small_os_simulator.Phase1.Startup.{startup, sentinel_args, create_device_sems, device_name}

scan-clear_procs :
    (name : Name) (i k : ℕ) (procs : List Pcb)
    → scan name i (some k) (clear_procs procs) ≡ (Code.success, some k)
unfolding scan clear_procs
scan-clear_procs name i k [] = refl
scan-clear_procs name i k (p ∷ procs) = scan-clear_procs name (suc i) k procs

scan_first :
    (name : Name) (procs : List Pcb)
    → 0 < length procs
    → scan name 0 none (clear_procs procs) ≡ (Code.success, some 0)
unfolding scan clear_procs
scan_first name [] lt = absurd (omega arith)
scan_first name (p ∷ procs) lt = scan-clear_procs name 1 0 procs

find_index-clear_slots : (xs : List Context) → find_index is_free (clear_slots xs) ≡ 0
unfolding find_index clear_slots
find_index-clear_slots [] = refl
find_index-clear_slots (x ∷ xs) = refl

length-clear_slots : (xs : List Context) → length (clear_slots xs) ≡ length xs
unfolding clear_slots
length-clear_slots [] = refl
length-clear_slots (x ∷ xs) = ap suc (length-clear_slots xs)

sem_init-unused : (sems : List Sem) (i : ℕ) → (sem (sem_init sems) i).is_being_used ≡ false
unfolding sem_init
sem_init-unused [] i = refl
sem_init-unused (x ∷ sems) zero = refl
sem_init-unused (x ∷ sems) (suc i) = sem_init-unused sems i

create_device_sems-Waits :
    (c : Config) (s : Sched) (left i : ℕ) (d : Devices) (sems : List Sem)
    → Waits s sems
    → Waits s (create_device_sems c left i d sems).1
unfolding create_device_sems
create_device_sems-Waits c s zero i d sems w = w
create_device_sems-Waits c s (suc left) i d sems w =
    create_device_sems-Waits c s left (suc i) _ _
      (sem_create-Waits s c (some (device_name i)) 0 sems w)

quit_children-clear_procs :
    (ps : List Pcb) (i : ℕ)
    → (get_or (clear_procs ps) i blank).quit_children ≡ (get_or ps i blank).quit_children
unfolding clear_procs
quit_children-clear_procs [] i = refl
quit_children-clear_procs (p ∷ ps) zero = refl
quit_children-clear_procs (p ∷ ps) (suc i) = quit_children-clear_procs ps i

-- A scheduler without quit children.
pub childless-Family : (s : Sched) → ((i : ℕ) → entries s i ≡ []) → Family s
childless-Family s none_yet = record {
  quits = λ i a lt. absurd (none i a lt);
  once = λ i a j b lt lt' same. absurd (none i a lt);
}
  where
    none : (i a : ℕ) → ¬ (a < length (entries s i))
    none i a lt = let lt' : a < 0 = rw (none_yet i) at lt in omega (arith, lt')

module _ (c : Config) (wrapper sentinel : ℕ) (k : Kernel) (d : Devices)
    (sized : length k.sched.procs ≡ c.max_proc) (some_procs : 0 < c.max_proc)
    (slots : 0 < length k.contexts.slots) (names : 8 ≤ c.max_name) (empty : k.sched.queue ≡ [])
    (is_first : k.sched.is_first ≡ true)
    (childless : (i : ℕ) → (proc k.sched i).quit_children ≡ []) where
  passes : fork_check c (sentinel_args c sentinel) (proc_init k.sched) ≡ (Code.success, some 0)
  unfolding fork_check check_name proc_init
  passes =
      let found =
        scan_first (115 ∷ 101 ∷ 110 ∷ 116 ∷ 105 ∷ 110 ∷ 101 ∷ 108 ∷ []) k.sched.procs
          (omega (arith, sized)) in
      ground arith

  context_given :
      (t : Contexts) × (context_create c wrapper 0 (pos c.min_stack) (context_table_init k.contexts)
        ≡ (Code.success, some 0, t))
  unfolding context_create context_table_init
  context_given = (
    take_slot wrapper 0 (pos c.min_stack) 0 (context_table_init k.contexts),
    ground (arith, find_index-clear_slots k.contexts.slots, length-clear_slots k.contexts.slots),
  )

  abbrev args : ForkArgs
  args = sentinel_args c sentinel

  abbrev cleared : Sched
  cleared = proc_init k.sched

  abbrev listed : Sched
  listed = enlist c args 0 0 cleared

  first_wants : wants_cpu args listed ≡ true
  unfolding enlist proc_init
  first_wants = ground arith

  -- The fork of `startup` succeeds, and is to dispatch.
  forked :
      (t : Sched) × (y : Contexts) × (fork c wrapper args cleared (context_table_init k.contexts)
        ≡ created 0 true t y)
  unfolding fork start admit
  forked =
      let (y, given) = context_given in
      let t : Sched = record listed { is_first = listed.is_first && not (wants_cpu args listed) } in
      (
        t,
        y,
        ap (start c wrapper args cleared (context_table_init k.contexts)) passes
            ∙ ap (admit c args 0 cleared) given
            ∙ ap (λ b. created 0 b t y) first_wants,
      )

  cleared-Family : Family cleared
  unfolding proc_init
  cleared-Family =
      childless-Family cleared (λ i. quit_children-clear_procs k.sched.procs i ∙ childless i)

  device_sems-Waits : (t : Sched) → Waits t (create_device_sems c 8 0 d (sem_init k.sems)).1
  device_sems-Waits t =
      create_device_sems-Waits c t 8 0 d (sem_init k.sems)
        (λ i used. cc (sem_init-unused k.sems i, used))

  -- With P1_MAXPROC entries in the process table, at least one of them and one slot for a
  -- context, names of at least 8 characters, an empty queue, the first process still to come and
  -- no quit children listed, whatever else the statics hold, `startup` forks the sentinel into
  -- slot 0 and is to dispatch it, and every state that is reached from there by steps of phase 1
  -- is sound: the dispatch queue, the lists of quit children and the waiting lists of the
  -- semaphores agree with the process table.
  pub startup-Sound :
      (t : Sched) × (y : Contexts) × ((startup c wrapper sentinel k d).0 ≡ created 0 true t y)
      × ((l : Kernel)
          → Reach c wrapper
              (record { sched = t; contexts = y; sems = (startup c wrapper sentinel k d).2 })
              l
          → Sound c l)
  unfolding startup
  startup-Sound =
      let (t, y, e) = forked in
      let valid = proc_init-IsValid c k.sched sized empty in
      let made = fork-ForkedWell wrapper args (context_table_init k.contexts) valid e in
      let family =
        Keeps-Family (fork-Keeps {but = minus_one} c wrapper args (context_table_init k.contexts) e)
          cleared-Family in
      let sound : Sound c
          (record { sched = t; contexts = y; sems = (startup c wrapper sentinel k d).2 }) =
        record { valid = made.valid; family = family; waits = device_sems-Waits t } in
      (t, y, e, λ l r. Reach-Sound sound r)
