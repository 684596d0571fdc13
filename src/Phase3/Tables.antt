-- ===== src/Phase3/Tables.antt =====
-- The page tables of phase3a.c and phase3b.c: `P3PageTableGet`, `P3PageTableSet`,
-- `P3PageTableAllocateEmpty`, `PageTableAllocateIdentity`, `P3_AllocatePageTable`, `PageTableFree` and
-- `P3_FreePageTable`. The C heap does not run out.
pub mod Leak
use small_os_simulator.Common.{
  ℕ, zero, suc, ◌+◌, Bool, true, false, Option, none, some, List, [], ◌∷◌, if◌then◌else◌, length,
  get_or, set, replicate, ℤ, pos, index,
}
use small_os_simulator.Phase3.Types.{Code, Pte, Table, empty_pte}
use small_os_simulator.Phase3.Frames.{Pool, frame_free_all}
use small_os_simulator.Phase3.Swap.{Swap, swap_free_all}

-- `pageTables` (none for NULL), `numPages`, `initialized` of phase3a.c, and the statics of phase3c.c
-- and phase3d.c.
pub record Vm : Type 0 where
  pub tables : List (Option Table)
  pub num_pages : ℕ
  pub initialized : Bool
  pub pool : Pool
  pub swap : Swap

-- `P3PageTableGet`: the code and what goes through `table`.
unfoldable pub table_get : ℤ → Vm → Code × Option (Option Table)
table_get pid vm = elim (index (length vm.tables) pid) [
  | none ↦ (Code.invalid_pid, none)
  | some i ↦ (Code.success, some (get_or vm.tables i none))
]

-- `P3PageTableSet`
unfoldable pub table_set : ℤ → Option Table → Vm → Code × Vm
table_set pid table vm = elim (index (length vm.tables) pid) [
  | none ↦ (Code.invalid_pid, vm)
  | some i ↦ (Code.success, record vm { tables = set vm.tables i table })
]

-- `P3PageTableAllocateEmpty`
unfoldable pub allocate_empty : ℕ → Option Table
allocate_empty pages = some (replicate pages empty_pte)

-- The entries of `PageTableAllocateIdentity` from page `i` on.
unfoldable pub identity_from : ℕ → ℕ → Table
identity_from zero i = []
identity_from (suc pages) i =
    record { incore = true; read = true; write = true; frame = i } ∷ identity_from pages (suc i)

-- `PageTableAllocateIdentity`
unfoldable pub allocate_identity : Bool → ℕ → Option Table
unfolding identity_from
allocate_identity initialized pages = if initialized then some (identity_from pages 0) else none

-- `P3_AllocatePageTable`: the page table (none for NULL) and the tables.
unfoldable pub allocate_page_table : ℤ → Vm → Option Table × Vm
unfolding allocate_empty allocate_identity
allocate_page_table pid vm = elim (index (length vm.tables) pid) [
  | none ↦ (none, vm)
  | some i ↦
      let table = elim (allocate_empty vm.num_pages) as (λ _. Option Table) [
        | none ↦ allocate_identity vm.initialized vm.num_pages
        | some t ↦ some t
      ] in
      if vm.initialized then (table, record vm { tables = set vm.tables i table }) else (none, vm)
]

-- `P3_FreePageTable` behind `P3FrameFreeAll`, whose result is given: `PageTableFree` follows.
unfoldable pub finish_free : ℕ → Vm → Code × Table × Pool → Vm
finish_free pid vm (Code.success, table, pool) = record vm {
  pool = pool;
  tables = set vm.tables pid none;
}
finish_free pid vm (_, table, pool) = vm

-- `P3_FreePageTable` behind `P3SwapFreeAll`, whose result is given.
unfoldable pub free_frames_of : ℕ → Vm → Code × Table × Swap → Vm
unfolding finish_free
free_frames_of pid vm (Code.success, table, swap) =
    finish_free pid (record vm { swap = swap; tables = set vm.tables pid (some table) })
      (frame_free_all table vm.pool)
free_frames_of pid vm (_, table, swap) = vm

-- `P3_FreePageTable` of a process whose entry of `pageTables` is given.
unfoldable pub free_known : ℕ → Vm → Option Table → Vm
unfolding free_frames_of
free_known i vm none = vm
free_known i vm (some table) = free_frames_of i vm (swap_free_all i table vm.swap)

-- `P3_FreePageTable`. Its messages on the console are not in the model.
unfoldable pub free_page_table : ℤ → Vm → Vm
unfolding free_known
free_page_table pid vm = elim (index (length vm.tables) pid) [
  | none ↦ vm
  | some i ↦ if vm.initialized then free_known i vm (get_or vm.tables i none) else vm
]
