-- ===== src/Phase3/Start.antt =====
-- The start and the stop of virtual memory: `P3_VmInit`, `MMUInit`, `P3_VmShutdown` and `MMUShutdown`
-- of phase3a.c, and the checks and the statics of `P3PagerInit` and `P3PagerShutdown` of phase3c.c, with
-- the page tables that the forks of the pagers allocate. What these functions call of phases 1 and 2 is
-- given by its results (`Pagers` has the calls); the interrupt vector is not in the model.
pub mod Forks
pub mod Laws
use small_os_simulator.Common.{
  ℕ, zero, suc, Bool, true, false, ◌||◌, Option, none, some, List, [], ◌∷◌, if◌then◌else◌, length,
  replicate, ℤ, pos, pos_part, ltb_ℤ,
}
use small_os_simulator.Phase3.Types.{Code, Table}
use small_os_simulator.Phase3.Frames.{Pool, frame_init, frame_shutdown}
use small_os_simulator.Phase3.Swap.{Swap, swap_init, swap_shutdown}
use small_os_simulator.Phase3.Tables.{Vm, allocate_page_table}

-- What `USLOSS_MmuInit` returns; any other code halts the simulator.
pub data MmuResult : Type 0 where
  ok err_on err_page err_frame other : MmuResult

-- `MMUInit`; none where it halts.
unfoldable pub mmu_init : MmuResult → Option Code
mmu_init ok = some Code.success
mmu_init err_on = some Code.already_initialized
mmu_init err_page = some Code.invalid_num_pages
mmu_init err_frame = some Code.invalid_num_frames
mmu_init other = none

-- `isP3PagerInit` and `numberOfPagers`.
pub record Pagers : Type 0 where
  pub is_init : Bool
  pub number : ℤ

-- The part of `P3PagerInit` that is not about processes; `most` is P3_MAX_PAGERS.
unfoldable pub pager_init : ℕ → ℤ → Pagers → Code × Pagers
pager_init most pagers p =
    if p.is_init
    then (Code.already_initialized, p)
    else if ltb_ℤ (pos most) pagers || ltb_ℤ pagers (pos 1)
    then (Code.invalid_num_pagers, p)
    else (Code.success, record { is_init = true; number = pagers })

-- The same of `P3PagerShutdown`.
unfoldable pub pager_shutdown : Pagers → Code × Pagers
pager_shutdown p =
    if p.is_init then (Code.success, record p { is_init = false }) else (Code.not_initialized, p)

-- What the calls of `P3_VmInit` to the other phases give: whether the assertions hold on the semaphores
-- of `P3FrameInit`, on the disk size and the semaphores of `P3SwapInit` and on the semaphores of
-- `P3PagerInit`, and the processes that its forks make in turn, none where a fork fails.
pub record Calls : Type 0 where
  pub frame_sems : Bool
  pub swap_calls : Bool
  pub pager_sems : Bool
  pub pager_of : ℕ → Option ℕ

-- The statics of phase 3 and the pagers.
pub record Memory : Type 0 where
  pub vm : Vm
  pub num_frames : ℕ
  pub pagers : Pagers

-- What `P2_DiskSize` and `USLOSS_MmuPageSize` report: bytes of a sector, sectors of a track, tracks
-- of the disk and bytes of a frame.
pub record Disk : Type 0 where
  pub sector : ℕ
  pub track : ℕ
  pub disk : ℕ
  pub size_of_frame : ℕ

-- The forks of `P3PagerInit`, each with the page table that `P1ContextCreate` has allocated for the new
-- process; none where the assertion on a fork fails.
unfoldable pub fork_pagers : (ℕ → Option ℕ) → ℕ → Vm → Option Vm
fork_pagers pager_of zero vm = some vm
fork_pagers pager_of (suc n) vm = elim (pager_of 0) [
  | none ↦ none
  | some pid ↦ fork_pagers (λ i. pager_of (suc i)) n (allocate_page_table (pos pid) vm).1
]

-- `P3PagerInit` from the result of its checks on; none where an assertion fails.
unfoldable pub start_pagers : Calls → Memory → Code × Pagers → Option (Code × Memory)
unfolding fork_pagers
start_pagers x m (Code.success, p) =
    if x.pager_sems
    then elim (fork_pagers x.pager_of (pos_part p.number) m.vm) [
      | none ↦ none
      | some vm ↦ some (Code.success, record m { vm = vm; pagers = p })
    ]
    else none
start_pagers x m (code, p) = some (code, record m { pagers = p })

-- `P3_VmInit` from `P3PagerInit` on.
unfoldable pub init_pagers : Calls → ℕ → ℤ → Memory → Option (Code × Memory)
unfolding pager_init start_pagers
init_pagers x most pagers m = start_pagers x m (pager_init most pagers m.pagers)

-- `P3_VmInit` from the result of `P3SwapInit` on.
unfoldable pub init_swap : Calls → ℕ → ℤ → Memory → Code × Swap → Option (Code × Memory)
unfolding init_pagers
init_swap x most pagers m (Code.success, s) =
    if x.swap_calls
    then init_pagers x most pagers (record m { vm = record m.vm { swap = s } })
    else none
init_swap x most pagers m (code, s) = some (code, record m { vm = record m.vm { swap = s } })

-- `P3_VmInit` from the result of `P3FrameInit` on.
unfoldable pub init_frames :
    Disk → Calls → ℕ → ℕ → ℕ → ℤ → Memory → Code × Pool → Option (Code × Memory)
unfolding init_swap
init_frames d x most pages frames pagers m (Code.success, pool) =
    if x.frame_sems
    then init_swap x most pagers (record m { vm = record m.vm { pool = pool } })
        (swap_init pages frames d.sector d.track d.disk d.size_of_frame m.vm.swap)
    else none
init_frames d x most pages frames pagers m (code, pool) =
    some (code, record m { vm = record m.vm { pool = pool } })

-- `P3_VmInit` from the result of `MMUInit` on, with the page tables cleared.
unfoldable pub init_mmu :
    Disk → Calls → ℕ → ℕ → ℕ → ℤ → Memory → Option Code → Option (Code × Memory)
unfolding init_frames
init_mmu d x most pages frames pagers m none = none
init_mmu d x most pages frames pagers m (some Code.success) =
    init_frames d x most pages frames pagers
      (record m { vm = record m.vm { num_pages = pages; initialized = true }; num_frames = frames })
      (frame_init pages frames m.vm.pool)
init_mmu d x most pages frames pagers m (some code) = some (code, m)

-- The statistics, as far as the records hold them, set to zero, and the page tables to NULL.
unfoldable pub clear : Vm → Vm
clear vm = record vm {
  tables = replicate (length vm.tables) none;
  pool = record vm.pool { free_frames = 0 };
  swap = record vm.swap { stat_free_blocks = 0; stat_blocks = 0; page_ins = 0; page_outs = 0 };
}

-- `P3_VmInit`; none where it halts or an assertion fails.
unfoldable pub vm_init : Disk → Calls → ℕ → MmuResult → ℕ → ℕ → ℤ → Memory → Option (Code × Memory)
unfolding mmu_init init_mmu clear
vm_init d x most result pages frames pagers m =
    if m.vm.initialized
    then some (Code.already_initialized, m)
    else if ltb_ℤ pagers (pos 0) || ltb_ℤ (pos most) pagers
    then some (Code.invalid_num_pagers, m)
    else init_mmu d x most pages frames pagers (record m { vm = clear m.vm }) (mmu_init result)

-- The loop of `P3_VmShutdown`, which frees the page tables.
unfoldable pub free_tables : List (Option Table) → List (Option Table)
free_tables [] = []
free_tables (t ∷ ts) = none ∷ free_tables ts

-- The results of the three shutdowns, which the code asserts in this order.
unfoldable pub stop : Memory → Code × Pagers → Code × Swap → Code × Pool → Option Memory
unfolding free_tables
stop m (Code.success, pagers) (Code.success, swap) (Code.success, pool) = some (record m {
  vm = record m.vm {
    tables = free_tables m.vm.tables;
    initialized = false;
    pool = pool;
    swap = swap;
  };
  pagers = pagers;
})
stop m _ _ _ = none

-- `P3_VmShutdown`, given whether the assertions hold on what it calls of the other phases and of USLOSS;
-- none where an assertion fails.
unfoldable pub vm_shutdown : Bool → Memory → Option Memory
unfolding stop
vm_shutdown calls_hold m =
    let stopped =
      stop m (pager_shutdown m.pagers) (swap_shutdown m.vm.swap) (frame_shutdown m.vm.pool) in
    if m.vm.initialized then if calls_hold then stopped else none else some m
