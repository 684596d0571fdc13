-- ===== src/Phase3/Start/Laws.antt =====
-- Virtual memory after its start, and a start after a stop.
use small_os_simulator.Common.{
  ◌<◌, ◌≢◌, Option, List, pos_part, ℕ, ◌≡◌, refl, sym, ◌∙◌, ap, Bool, true, false, ◌||◌, none, some,
  [], arith, if_true, if_false, get_or, get_or-replicate, replicate, length, ℤ, pos, negsuc, ltb_ℤ,
}
use small_os_simulator.Phase3.Types.{Code, Table, empty_pte, unused_frame}
use small_os_simulator.Phase3.Frames.{frame_init, frame_shutdown}
use small_os_simulator.Phase3.Swap.{Swap, swap_init, swap_shutdown}
use small_os_simulator.Phase3.Swap.Blocks.{Counts, swap_init-Counts}
use small_os_simulator.Phase3.Tables.{Vm}
use small_os_simulator.Phase3.Start.{
  MmuResult, mmu_init, Calls, fork_pagers, start_pagers, pager_init, pager_shutdown, Memory, Disk,
  init_pagers, init_swap, init_frames, init_mmu, clear, vm_init, vm_shutdown, stop, free_tables,
}
use small_os_simulator.Phase3.Start.Forks.{IsPager, Forked, forks_lem, get_or-free_tables}

-- Nothing of virtual memory is initialised.
pub record IsStopped (m : Memory) : Type 0 where
  pub vm : m.vm.initialized ≡ false
  pub pool : m.vm.pool.frames ≡ none
  pub swap : m.vm.swap.is_init ≡ false
  pub pagers : m.pagers.is_init ≡ false

-- Everything is, with an empty page table for each pager and none for any other process, all frames
-- unused and the right counts.
pub record IsStarted (pager_of : ℕ → Option ℕ) (pages frames : ℕ) (pagers : ℤ) (m : Memory)
    : Type 0 where
  pub vm : m.vm.initialized ≡ true
  pub num_pages : m.vm.num_pages ≡ pages
  pub own :
      (pid : ℕ)
      → IsPager pager_of (pos_part pagers) pid
      → pid < length m.vm.tables
      → get_or m.vm.tables pid none ≡ some (replicate pages empty_pte)
  pub others :
      (pid : ℕ) → ¬ IsPager pager_of (pos_part pagers) pid → get_or m.vm.tables pid none ≡ none
  pub frames_lem : m.vm.pool.frames ≡ some (replicate frames unused_frame)
  pub free_frames : m.vm.pool.free_frames ≡ frames
  pub swap : m.vm.swap.is_init ≡ true
  pub counts : Counts m.vm.swap
  pub pagers_lem : m.pagers ≡ record { is_init = true; number = pagers }

not_both : (a b : Bool) → a ≡ false → b ≡ false → (a || b) ≡ false
not_both a b e e' = rw (e, e') refl

not_negative : (n : ℤ) → ltb_ℤ n (pos 1) ≡ false → ltb_ℤ n (pos 0) ≡ false
not_negative (pos n) h = ground arith
not_negative (negsuc n) h = absurd (ground arith)

module _ (d : Disk) (x : Calls) (most pages frames : ℕ) (pagers : ℤ) (m : Memory)
    (stopped : IsStopped m) where
  started_swap : Swap
  started_swap =
      (swap_init pages frames d.sector d.track d.disk d.size_of_frame (clear m.vm).swap).1

  framed : Vm
  framed = record m.vm {
    tables = replicate (length m.vm.tables) none;
    num_pages = pages;
    initialized = true;
    pool = record {
      frames = some (replicate frames unused_frame);
      pages = pages;
      free_frames = frames;
    };
    swap = started_swap;
  }

  -- What is left, with the page tables of the pagers.
  started : List (Option Table) → Memory
  started after = record m {
    vm = record framed { tables = after };
    num_frames = frames;
    pagers = record { is_init = true; number = pagers };
  }

  swap_starts :
      swap_init pages frames d.sector d.track d.disk d.size_of_frame (clear m.vm).swap
      ≡ (Code.success, started_swap)
  unfolding swap_init clear started_swap
  swap_starts =
      let e = if_false _ _ stopped.swap in e ∙ ap (λ (r : Code × Swap). (Code.success, r.1)) (sym e)

  frames_start : frame_init pages frames (clear m.vm).pool ≡ (
    Code.success,
    record { frames = some (replicate frames unused_frame); pages = pages; free_frames = frames },
  )
  unfolding frame_init clear
  frames_start = rw (stopped.pool, frame_init) refl

  pagers_start :
      ltb_ℤ (pos most) pagers ≡ false
      → ltb_ℤ pagers (pos 1) ≡ false
      → pager_init most pagers m.pagers ≡ (Code.success, record { is_init = true; number = pagers })
  unfolding pager_init
  pagers_start few some_there =
      if_false _ _ stopped.pagers
      ∙ if_false _ _ (not_both (ltb_ℤ (pos most) pagers) (ltb_ℤ pagers (pos 1)) few some_there)

  vm_starts :
      (after : List (Option Table))
      → ltb_ℤ (pos most) pagers ≡ false
      → ltb_ℤ pagers (pos 1) ≡ false
      → x.frame_sems ≡ true
      → x.swap_calls ≡ true
      → x.pager_sems ≡ true
      → fork_pagers x.pager_of (pos_part pagers) framed ≡ some (record framed { tables = after })
      → vm_init d x most MmuResult.ok pages frames pagers m ≡ some (Code.success, started after)
  unfolding vm_init init_mmu init_frames init_swap init_pagers start_pagers mmu_init started framed
      clear
  vm_starts after few some_there frame_ok swap_ok pager_ok forked =
      let half : Vm = record (clear m.vm) { num_pages = pages; initialized = true } in
      let pooled : Vm = record half {
        pool = record {
          frames = some (replicate frames unused_frame);
          pages = pages;
          free_frames = frames;
        };
      } in
      let swapped : Vm = record pooled { swap = started_swap } in
      let with_vm = λ (v : Vm). record m { vm = v; num_frames = frames } in
      if_false _ _ stopped.vm
      ∙ if_false _ _ (
          not_both (ltb_ℤ pagers (pos 0)) (ltb_ℤ (pos most) pagers) (not_negative pagers some_there)
            few)
      ∙ ap (init_frames d x most pages frames pagers (with_vm half)) frames_start
      ∙ if_true _ _ frame_ok
      ∙ ap (init_swap x most pagers (with_vm pooled)) swap_starts
      ∙ if_true _ _ swap_ok
      ∙ ap (start_pagers x (with_vm swapped)) (pagers_start few some_there)
      ∙ if_true _ _ pager_ok
      ∙ ap
          (λ (o : Option Vm). elim o as (λ _. Option (Code × Memory)) [
            | none ↦ none
            | some v ↦ some (
              Code.success,
              record (with_vm swapped) {
                vm = v;
                pagers = record { is_init = true; number = pagers };
              },
            )
          ])
          forked

  started_swap-Counts : Counts started_swap
  unfolding started_swap clear
  started_swap-Counts =
      swap_init-Counts pages frames d.sector d.track d.disk d.size_of_frame (clear m.vm).swap
        stopped.swap

  is_init_start : started_swap.is_init ≡ true
  unfolding started_swap swap_init clear
  is_init_start = ap (λ (r : Code × Swap). r.1.is_init) (if_false _ _ stopped.swap)

  started-IsStarted :
      {after : List (Option Table)}
      → Forked x.pager_of (pos_part pagers) framed after
      → IsStarted x.pager_of pages frames pagers (started after)
  unfolding started framed
  started-IsStarted f = record {
    vm = refl;
    num_pages = refl;
    own = λ pid is below. f.own pid is (rw f.sized at below);
    others = λ pid out. f.others pid out ∙ get_or-replicate (length m.vm.tables) pid none;
    frames_lem = refl;
    free_frames = refl;
    swap = is_init_start;
    counts = started_swap-Counts;
    pagers_lem = refl;
  }

  halted_swap : Swap
  halted_swap = record started_swap { is_init = false; blocks = []; infos = [] }

  halted : List (Option Table) → Memory
  halted after = record (started after) {
    vm = record (started after).vm {
      tables = free_tables after;
      initialized = false;
      pool = record framed.pool { frames = none };
      swap = halted_swap;
    };
    pagers = record { is_init = false; number = pagers };
  }

  vm_stops : (after : List (Option Table)) → vm_shutdown true (started after) ≡ some (halted after)
  unfolding vm_shutdown pager_shutdown swap_shutdown frame_shutdown started halted halted_swap
      framed
  vm_stops after =
      ap
        (λ (r : Code × Swap).
          stop (started after) (Code.success, record { is_init = false; number = pagers }) r
            (Code.success, record framed.pool { frames = none }))
        (if_true _ _ is_init_start)

  halted-IsStopped : (after : List (Option Table)) → IsStopped (halted after)
  unfolding halted halted_swap started framed
  halted-IsStopped after = record { vm = refl; pool = refl; swap = refl; pagers = refl }

  -- From statics where nothing is initialised, `P3_VmInit` with at least one and at most
  -- P3_MAX_PAGERS pagers succeeds where the MMU does, the assertions on semaphores and on the
  -- disk size hold, and the forks of the pagers succeed. It leaves everything initialised, an
  -- empty page table for each pager and none for any other process, all frames unused, and the
  -- counts of the frames and of the swap space right. `P3_VmShutdown` of that, where the
  -- assertions on what it calls of the other phases and of USLOSS hold, meets no failed assertion
  -- and leaves nothing initialised and no page table.
  pub vm_init-vm_shutdown :
      ltb_ℤ (pos most) pagers ≡ false
      → ltb_ℤ pagers (pos 1) ≡ false
      → x.frame_sems ≡ true
      → x.swap_calls ≡ true
      → x.pager_sems ≡ true
      → ((i : ℕ) → i < pos_part pagers → x.pager_of i ≢ none)
      → (t u : Memory) × (vm_init d x most MmuResult.ok pages frames pagers m
          ≡ some (Code.success, t))
        × IsStarted x.pager_of pages frames pagers t
        × (vm_shutdown true t ≡ some u)
        × IsStopped u
        × ((pid : ℕ) → get_or u.vm.tables pid none ≡ none)
  unfolding framed halted started
  vm_init-vm_shutdown few some_there frame_ok swap_ok pager_ok all =
      let (after, forked, f) = forks_lem x.pager_of (pos_part pagers) framed refl all in
      (
        started after,
        halted after,
        vm_starts after few some_there frame_ok swap_ok pager_ok forked,
        started-IsStarted f,
        vm_stops after,
        halted-IsStopped after,
        get_or-free_tables after,
      )
