-- ===== src/Phase3/Pager.antt =====
-- The pager of phase3c.c: one round of the loop of `Pager` on a fault that it has taken from the
-- queue, over the frames, the swap space and the page tables, run alone. The pager holds
-- `framePoolMutex` while it calls `P3SwapOut`, which takes it again where it writes the victim back:
-- that blocks the pager for good, and is an outcome here.
pub mod Laws
pub mod Fresh
use small_os_simulator.Common.{
  ℕ, zero, suc, ◌+◌, ◌-◌, ◌*◌, ◌/◌, Bool, true, false, not, ◌&&◌, Option, none, some, List, [], ◌∷◌,
  ltb, if◌then◌else◌, length, get_or, set, find_index, ℤ, pos, negsuc, eqb_ℤ, minus_one,
}
use small_os_simulator.Phase3.Types.{Code, Pte, Table, Frame, unused_frame}
use small_os_simulator.Phase3.Frames.{Pool, frame_map, frame_unmap}
use small_os_simulator.Phase3.Swap.{Mmu, Access, Swap, info, clock, take_out, SwappedOut, swap_in}
use small_os_simulator.Phase3.Tables.{Vm}

-- `cause`: P3C_ABORT_OPERATION, USLOSS_MMU_ACCESS, or any other.
pub data Cause : Type 0 where
  abort access fault : Cause

-- `Fault`: the process, the offset in its virtual memory and the cause.
pub record Fault : Type 0 where
  pub pid : ℕ
  pub offset : ℕ
  pub cause : Cause

-- What a process sees of the page tables by their addresses; NULL has no entries.
abbrev pub entries : Option Table → Table
entries none = []
entries (some t) = t

abbrev pub table_of : Vm → ℕ → Table
table_of vm pid = entries (get_or vm.tables pid none)

-- The page tables of all processes, and a write to them by their addresses.
unfoldable pub all_entries : List (Option Table) → List Table
all_entries [] = []
all_entries (t ∷ ts) = entries t ∷ all_entries ts

unfoldable pub put_entries : List (Option Table) → List Table → List (Option Table)
put_entries [] us = []
put_entries (t ∷ ts) [] = t ∷ ts
put_entries (none ∷ ts) (u ∷ us) = none ∷ put_entries ts us
put_entries (some t ∷ ts) (u ∷ us) = some u ∷ put_entries ts us

abbrev pub put_table : ℕ → Table → Vm → Vm
put_table pid t vm = record vm {
  tables = set vm.tables pid (elim (get_or vm.tables pid none) [ none ↦ none | some _ ↦ some t ]);
}

abbrev pub is_unused : Frame → Bool
is_unused f = not f.is_being_used

-- The end of the zero fill, with the result of `P3FrameUnmap`; none where its assert fails.
unfoldable pub unmapped : ℕ → Vm → Code × Table × Pool → Option Vm
unmapped self vm (Code.success, table, pool) =
    some (put_table self table (record vm { pool = pool }))
unmapped self vm (_, table, pool) = none

-- The zero fill from the result of `P3FrameMap` on; none where an assert fails.
unfoldable pub fill_mapped : ℕ → ℕ → Vm → Code × Option ℕ × Table × Pool → Option Vm
unfolding unmapped
fill_mapped self frame vm (Code.success, at, table, pool) =
    let mapped = put_table self table (record vm { pool = pool }) in
    unmapped self mapped (frame_unmap (pos frame) self (table_of mapped self) mapped.pool)
fill_mapped self frame vm (_, at, table, pool) = none

-- The zero fill of a new page by process `self`: map, fill, unmap. `P3SwapIn` maps and unmaps in the same
-- way for the copy from the disk.
unfoldable pub zero_fill : ℕ → ℕ → Vm → Option Vm
unfolding fill_mapped
zero_fill self frame vm =
    fill_mapped self frame vm (frame_map (pos frame) self (table_of vm self) vm.pool)

abbrev pub is_some : Option Vm → Bool
is_some none = false
is_some (some vm) = true

-- The page tables and the pool that `P3SwapIn` leaves: where it has copied the page into the frame, the
-- caller has mapped and unmapped the frame.
abbrev pub copied_vm : Code → Option Vm → Vm → Vm
copied_vm Code.success (some copy) vm = copy
copied_vm _ _ vm = vm

module _ (mmu : Mmu) where
  open mmu use {Bits, get_access}

  -- The statics that a pager works on: those of phase 3, the access bits, and `faults` and `new` of
  -- `P3_vmStats`.
  pub record Paging : Type 0 where
    pub vm : Vm
    pub bits : Bits
    pub faults : ℕ
    pub fresh : ℕ

  -- Where the pager gets the frame of a fault.
  pub data Choice : Type 0 where
    -- the frame, and whether it was free in the pool
    chosen : ℕ → Bool → Paging → Choice
    -- the pager waits for a mutex that it holds
    self_blocked : Choice
    -- an assertion in `P3SwapOut` fails, as the pager cannot map the frame
    map_fails : Choice
    -- no frame ever stops the clock of `P3SwapOut`
    endless : Choice

  -- `P3SwapOut` writes the victim back, for which it maps the frame.
  abbrev pub writes_back : ℕ → Bits → Swap → Bool
  writes_back target m s =
      (get_access m target).dirty && not (eqb_ℤ (info s.infos target).block_num minus_one)

  -- `P3FrameMap` as the pager calls it in `P3SwapOut`, from its checks on: if they pass, it takes
  -- `framePoolMutex`.
  unfoldable pub map_held : Code × Option ℕ × Table × Pool → Choice
  map_held (Code.success, at, table, pool) = self_blocked
  map_held (_, at, table, pool) = map_fails

  -- `P3SwapOut` as process `self`, the pager, calls it, from what its clock finds on.
  unfoldable pub victim : ℕ → Paging → Option (ℕ × Bits) → Choice
  unfolding map_held
  victim self p none = endless
  victim self p (some (target, m)) =
      let out = take_out mmu target m (all_entries p.vm.tables) p.vm.swap in
      if writes_back target m p.vm.swap
      then map_held (frame_map (pos target) self (get_or out.tables self []) p.vm.pool)
      else chosen target false (record p {
        bits = out.bits;
        vm = record p.vm { tables = put_entries p.vm.tables out.tables; swap = out.swap };
      })

  -- `P3SwapOut` as the pager calls it, with `framePoolMutex` held. Where it is not initialised, the
  -- frame stays the size of the pool.
  unfoldable pub choose_victim : ℕ → Paging → Choice
  unfolding victim
  choose_victim self p =
      let s = p.vm.swap in
      if s.is_init
      then victim self p (clock mmu (2 * s.frames) s.frames s.next_hand s.infos p.bits)
      else chosen (elim p.vm.pool.frames as (λ _. ℕ) [ none ↦ 0 | some fs ↦ length fs ]) false p

  -- The frame of a fault: the first unused one, which is in use from now on, or a victim.
  unfoldable pub choose_frame : ℕ → List Frame → Paging → Choice
  unfolding choose_victim
  choose_frame self frames p =
      let f = find_index is_unused frames in
      if ltb f (length frames)
      then chosen f true (record p {
        vm = record p.vm {
          pool = record p.vm.pool {
            frames =
                some
                  (set frames f (record (get_or frames f unused_frame) { is_being_used = true }));
          };
        };
      })
      else choose_victim self p

  -- How a round of the pager ends.
  pub data Round : Type 0 where
    -- the pager stops, with the V for the one that asked
    stops : Paging → Round
    -- the faulting process is woken and ends
    kills : Paging → Round
    -- the faulting process is woken and goes on; the frame that was filled with zeros, if one was
    resumes : Option ℕ → Paging → Round
    waits_forever : Round
    assert_failed : Round

  -- The end of a round: the statistics, the entry of the page, and the wakeup.
  unfoldable pub finish : Fault → ℕ → ℕ → Bool → Option ℕ → Paging → Round
  finish x page frame free zeroed p =
      let vm =
        put_table x.pid
          (set (table_of p.vm x.pid) page
            (record { incore = true; read = true; write = true; frame = frame }))
          p.vm in
      resumes zeroed (
        if free
        then record p {
          vm = record vm { pool = record vm.pool { free_frames = vm.pool.free_frames - 1 } };
          fresh = p.fresh + 1;
        }
        else record p { vm = vm })

  -- What the pager does with the result of `P3SwapIn`, whose page table is written.
  unfoldable pub after_swap_in : ℕ → Fault → ℕ → ℕ → Bool → Code → Paging → Round
  unfolding zero_fill finish
  after_swap_in self x page frame free Code.empty_page p = elim (zero_fill self frame p.vm) [
    | none ↦ assert_failed
    | some vm ↦ finish x page frame free (some frame) (record p { vm = vm })
  ]
  after_swap_in self x page frame free Code.out_of_swap p = kills p
  after_swap_in self x page frame free Code.assert_failed p = assert_failed
  after_swap_in self x page frame free _ p = finish x page frame free none p

  -- The round from the chosen frame on.
  unfoldable pub page_in : ℕ → ℕ → Fault → ℕ → Choice → Round
  unfolding after_swap_in zero_fill
  page_in max_proc self x page self_blocked = waits_forever
  page_in max_proc self x page endless = waits_forever
  page_in max_proc self x page map_fails = assert_failed
  page_in max_proc self x page (chosen frame free p) =
      let copy = zero_fill self frame p.vm in
      let (code, table, swap) =
        swap_in max_proc (is_some copy) (pos x.pid) (pos page) (pos frame) (table_of p.vm x.pid)
          p.vm.swap in
      after_swap_in self x page frame free code (record p {
        vm = put_table x.pid table (record (copied_vm code copy p.vm) { swap = swap });
      })

  -- One round of `Pager` with process id `self`, for the fault `x`.
  unfoldable pub round : ℕ → ℕ → ℕ → Fault → Paging → Round
  unfolding choose_frame page_in
  round max_proc page_size self x p =
      let counted = record p { faults = p.faults + 1 } in
      elim x.cause [
        | abort ↦ stops p
        | access ↦ kills counted
        | fault ↦ page_in max_proc self x (x.offset / page_size) (
            choose_frame self
              (elim p.vm.pool.frames as (λ _. List Frame) [ none ↦ [] | some fs ↦ fs ]) counted)
      ]
