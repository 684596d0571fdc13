-- ===== src/Phase3/Tests.antt =====
-- The theorems of phase 3 at concrete inputs.
use small_os_simulator.Common.{
  ℕ, ◌<◌, ◌≡◌, ◌≢◌, refl, true, false, none, some, List, [], ◌∷◌, arith, pos, get_or, find_index,
  if◌then◌else◌, ◌==◌, ne→==, ==_refl,
}
use small_os_simulator.Phase3.Types.{Code, Table, empty_pte, Frame, unused_frame}
use small_os_simulator.Phase3.Frames.{free_pages, frame_unmap, frame_map}
use small_os_simulator.Phase3.Frames.Laws.{in_core, free_pages_lem, frame_unmap-frame_map}
use small_os_simulator.Phase3.Swap.{
  Access, Mmu, Info, free_block, Swap, clock, swap_in, swap_free_all, fresh_info, claimed, read_in,
  map_page,
}
use small_os_simulator.Phase3.Swap.Clock.{clock_total}
use small_os_simulator.Phase3.Swap.Blocks.{Counts, count_free, swap_in-Counts, swap_free_all-Counts}
use small_os_simulator.Phase3.Swap.Again.{IsNew, vacant, swap_in_again}
use small_os_simulator.Phase3.Tables.{Vm, free_page_table}
use small_os_simulator.Phase3.Tables.Leak.{pool-free_page_table}
use small_os_simulator.Common.{zero, suc, eqb_ℤ, minus_one}
use small_os_simulator.Phase3.Pager.{Cause, Paging, resumes, waits_forever, round}
use small_os_simulator.Phase3.Pager.Fresh.{PagedIn, round-PagedIn}
use small_os_simulator.Phase3.Pager.Laws.{round_waits}
use small_os_simulator.Phase3.Swap.{info}
use small_os_simulator.Phase3.Start.{MmuResult, Calls, Memory, Disk, vm_init, vm_shutdown}
use small_os_simulator.Phase3.Start.Laws.{IsStopped, IsStarted, vm_init-vm_shutdown}

-- Access bits as a function of the frame.
abbrev set_bits : ℕ → Access → (ℕ → Access) → ℕ → Access
set_bits f a b g = if f == g then a else b g

set_bits_self : (b : ℕ → Access) (f : ℕ) (a : Access) → set_bits f a b f ≡ a
set_bits_self b f a = rw (==_refl f) refl

set_bits_ne : (b : ℕ → Access) (f g : ℕ) (a : Access) → f ≢ g → set_bits f a b g ≡ b g
set_bits_ne b f g a h = rw (ne→== f g h) refl

abbrev mmu : Mmu
mmu = record {
  Bits = ℕ → Access;
  get_access = λ b f. b f;
  set_access = set_bits;
  get-set_self = set_bits_self;
  get-set_ne = set_bits_ne;
}

abbrev all_referenced : ℕ → Access
all_referenced f = record { referenced = true; dirty = false }

abbrev infos : List Info
infos = record fresh_info { is_busy = true } ∷ fresh_info ∷ []

clock_total_example : clock mmu 4 2 1 infos all_referenced ≢ none
clock_total_example = clock_total mmu 2 infos 1 1 all_referenced (omega arith) refl

-- A swap disk with two blocks of two sectors, the first taken by page 0 of process 0.
abbrev swap : Swap
swap = record {
  is_init = true;
  pages = 2;
  frames = 2;
  track = 3;
  sectors_per_frame = 2;
  free_blocks = 1;
  blocks =
      record { pid = pos 0; page = pos 0; frame = pos 0; track = pos 0; first = pos 0 }
      ∷ free_block
      ∷ [];
  infos = fresh_info ∷ fresh_info ∷ [];
  next_hand = 0;
  stat_free_blocks = 1;
  stat_blocks = 2;
  page_ins = 0;
  page_outs = 0;
  copies = [];
}

swap-Counts : Counts swap
unfolding count_free
swap-Counts = record { counted = refl; reported = refl }

abbrev table : Table
table = record { incore = true; read = true; write = true; frame = 1 } ∷ empty_pte ∷ []

swap_in-Counts_example : Counts (swap_in 4 true (pos 1) (pos 0) (pos 1) table swap).2
swap_in-Counts_example = swap_in-Counts 4 true (pos 1) (pos 0) (pos 1) table swap-Counts

swap_free_all-Counts_example : Counts (swap_free_all 0 table swap).2
swap_free_all-Counts_example = swap_free_all-Counts 0 table swap-Counts

IsNew-page : IsNew 1 0 swap
unfolding find_index
IsNew-page = refl

swap_in_again_example :
    let b = claimed 1 0 1 (vacant swap) swap in
    let (code, table', t) =
      swap_in 4 true
        (pos 1)
        (pos 0)
        (pos 0)
        table
        (swap_in 4 false (pos 1) (pos 0) (pos 1) [] swap).2 in
    (code ≡ Code.success)
    × (table' ≡ map_page 0 0 table)
    × (t.copies ≡ read_in 0 b.track b.first ∷ [])
swap_in_again_example =
    swap_in_again 4 1 0 1 swap refl (omega arith) (omega arith) (omega arith) false [] table 0
      IsNew-page swap-Counts (omega arith) (omega arith)

abbrev frames : List Frame
frames = unused_frame ∷ record unused_frame { is_being_used = true } ∷ []

free_pages_lem_example :
    let (table', frames', used') = free_pages table frames 0 in
    (used' ≡ 1) × (in_core table' ≡ 0) × (get_or frames' 1 unused_frame ≡ unused_frame)
free_pages_lem_example = free_pages_lem table frames 0 1

frame_unmap-frame_map_example :
    let (code, at, table', p') =
      frame_map (pos 0) 3 table (record { frames = some frames; pages = 2; free_frames = 0 }) in
    (code ≡ Code.success)
    × (at ≡ some 1)
    × (frame_unmap (pos 0) 3 table' p'
        ≡ (Code.success, table, record { frames = some frames; pages = 2; free_frames = 0 }))
unfolding find_index
frame_unmap-frame_map_example =
    frame_unmap-frame_map 0 3 table frames 2 0 (omega arith) (omega arith) refl

abbrev vm : Vm
vm = record {
  tables = some table ∷ none ∷ [];
  num_pages = 2;
  initialized = true;
  pool = record { frames = some frames; pages = 2; free_frames = 1 };
  swap = swap;
}

pool-free_page_table_example : (free_page_table (pos 0) vm).pool ≡ vm.pool
pool-free_page_table_example = pool-free_page_table (pos 0) vm

-- Process 0 has faulted on its page 1, and process 1 is the pager.
abbrev paging : Paging mmu
paging = record {
  vm = record vm { tables = some table ∷ some (empty_pte ∷ []) ∷ [] };
  bits = all_referenced;
  faults = 0;
  fresh = 0;
}

IsNew-page_1 : IsNew 0 1 swap
unfolding find_index
IsNew-page_1 = refl

round-PagedIn_example :
    (q : Paging mmu) × (round mmu 4 512 1
        (record { pid = 0; offset = 600; cause = Cause.fault })
        paging
      ≡ resumes (some 0) q)
    × PagedIn mmu 1 0 1 0 (empty_pte ∷ []) frames paging q
unfolding find_index
round-PagedIn_example =
    round-PagedIn mmu 4 512 1 0 600 paging frames table (empty_pte ∷ []) refl (omega arith) refl
      (omega arith) (omega arith) (omega arith) refl (omega arith) refl (omega arith) refl
      (omega arith) IsNew-page_1 swap-Counts (omega arith)

-- Both frames are in use and dirty, and hold pages that were swapped out before.
abbrev crowded : Paging mmu
crowded = record {
  vm = record vm {
    tables = some table ∷ some (empty_pte ∷ []) ∷ [];
    pool = record vm.pool {
      frames = some (
          record unused_frame { is_being_used = true }
          ∷ record unused_frame { is_being_used = true }
          ∷ []);
    };
    swap = record swap {
      infos =
          record fresh_info { block_num = pos 0 } ∷ record fresh_info { block_num = pos 1 } ∷ [];
    };
  };
  bits = λ f. record { referenced = true; dirty = true };
  faults = 0;
  fresh = 0;
}

crowded_written :
    (g : ℕ)
    → g < 2
    → (info crowded.vm.swap.infos g).is_busy ≡ false
    → (true ≡ true) × (eqb_ℤ (info crowded.vm.swap.infos g).block_num minus_one ≡ false)
crowded_written zero lt e = (refl, refl)
crowded_written (suc zero) lt e = (refl, refl)
crowded_written (suc (suc g)) lt e = absurd (omega arith)

round_waits_example :
    round mmu 4 512 1 (record { pid = 0; offset = 600; cause = Cause.fault }) crowded
    ≡ waits_forever
unfolding find_index
round_waits_example =
    round_waits mmu 4 512 1 0 600 0 crowded _ refl refl (omega arith) (omega arith) refl
      (omega arith) refl crowded_written

abbrev stopped : Memory
stopped = record {
  vm = record {
    tables = none ∷ none ∷ [];
    num_pages = 0;
    initialized = false;
    pool = record { frames = none; pages = 0; free_frames = 0 };
    swap = record swap { is_init = false };
  };
  num_frames = 0;
  pagers = record { is_init = false; number = pos 0 };
}

stopped-IsStopped : IsStopped stopped
stopped-IsStopped = record { vm = refl; pool = refl; swap = refl; pagers = refl }

abbrev disk : Disk
disk = record { sector = 512; track = 4; disk = 3; size_of_frame = 600 }

-- The pagers get the slots from 0 on.
abbrev calls : Calls
calls = record { frame_sems = true; swap_calls = true; pager_sems = true; pager_of = λ i. some i }

vm_init-vm_shutdown_example :
    (t u : Memory) × (vm_init disk calls 3 MmuResult.ok 2 2 (pos 2) stopped
      ≡ some (Code.success, t))
    × IsStarted (λ i. some i) 2 2 (pos 2) t
    × (vm_shutdown true t ≡ some u)
    × IsStopped u
    × ((pid : ℕ) → get_or u.vm.tables pid none ≡ none)
vm_init-vm_shutdown_example =
    vm_init-vm_shutdown disk calls 3 2 2 (pos 2) stopped stopped-IsStopped refl refl refl refl refl
      (λ i lt e. cc)
