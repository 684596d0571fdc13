-- ===== src/Phase3/Pager/Fresh.antt =====
-- A fault on a page that was never swapped, with a free frame and a free block.
use small_os_simulator.Common.{
  ℕ, zero, suc, ◌+◌, ◌-◌, ◌/◌, ◌<◌, ◌≡◌, ◌≢◌, refl, sym, ◌∙◌, ap, subst, true, false, Option, none,
  some, List, [], ◌∷◌, arith, lt→ltb, length, length-set, set-set, get_or, set, get_or-set_self,
  get_or-set_ne, find_index, pos, minus_one,
}
use small_os_simulator.Phase3.Types.{Code, Pte, Table, pte, empty_pte, Frame, unused_frame}
use small_os_simulator.Phase3.Frames.{Pool, frame_map, frame_unmap, not_incore}
use small_os_simulator.Phase3.Frames.Laws.{maps_any, frame_map_lem, frame_unmap-frame_map}
use small_os_simulator.Phase3.Swap.{Mmu, Swap, swap_in, map_page}
use small_os_simulator.Phase3.Swap.Blocks.{Counts}
use small_os_simulator.Phase3.Swap.Again.{IsNew, with_block, swap_in_new}
use small_os_simulator.Phase3.Tables.{Vm}
use small_os_simulator.Phase3.Pager.{
  Cause, Fault, entries, table_of, put_table, Paging, chosen, is_unused, choose_frame, resumes,
  zero_fill, is_some, copied_vm, fill_mapped, unmapped, finish, after_swap_in, page_in, round,
}

-- An index with an entry lies in the table.
some-lt : (ts : List (Option Table)) (i : ℕ) {t : Table} → get_or ts i none ≡ some t → i < length ts
some-lt [] i e = cc
some-lt (x ∷ ts) zero e = omega arith
some-lt (x ∷ ts) (suc i) e = omega (arith, some-lt ts i e)

-- The tables after one that is there is written.
put_table_self :
    (pid : ℕ) (u : Table) (vm : Vm) {t : Table}
    → get_or vm.tables pid none ≡ some t
    → get_or (put_table pid u vm).tables pid none ≡ some u
put_table_self pid u vm e =
    rw e (get_or-set_self vm.tables pid (some u) none (some-lt vm.tables pid e))

put_table_ne :
    (pid j : ℕ) (u : Table) (vm : Vm)
    → pid ≢ j
    → get_or (put_table pid u vm).tables j none ≡ get_or vm.tables j none
put_table_ne pid j u vm ne = get_or-set_ne vm.tables pid j _ none ne

-- The page that the pager maps for the time of the fill.
abbrev spare : Table → ℕ
spare ts = find_index not_incore ts

abbrev cleared : List Frame → ℕ → List Frame
cleared frames f =
    set frames f (record (get_or frames f unused_frame) { mapped_process_id = minus_one })

-- A pool with these frames.
abbrev pool_with : List Frame → Vm → Vm
pool_with frames vm = record vm { pool = record vm.pool { frames = some frames } }

abbrev mapped : List Frame → ℕ → ℕ → List Frame
mapped frames f self =
    set frames f (record (get_or frames f unused_frame) { mapped_process_id = pos self })

fill_mapped_lem :
    (self f : ℕ) (vm : Vm) (at : Option ℕ) (t u : Table) (pool : Pool) (r : Code × Table × Pool)
    → get_or vm.tables self none ≡ some u
    → frame_unmap (pos f) self t pool ≡ r
    → fill_mapped self f vm (Code.success, at, t, pool)
      ≡ unmapped self (put_table self t (record vm { pool = pool })) r
unfolding fill_mapped
fill_mapped_lem self f vm at t u pool r e done =
    ap (unmapped self (put_table self t (record vm { pool = pool })))
      (ap (λ o. frame_unmap (pos f) self (entries o) pool) (put_table_self self t vm e) ∙ done)

-- The zero fill leaves the frame unmapped and the spare page empty.
zero_fill_lem :
    (self f : ℕ) (vm : Vm) (ts : Table) (frames : List Frame)
    → get_or vm.tables self none ≡ some ts
    → maps_any f ts ≡ false
    → f < length frames
    → spare ts < length ts
    → zero_fill self f (pool_with frames vm)
      ≡ some (
          put_table self (set ts (spare ts) empty_pte) (
            put_table self
              (set ts (spare ts) (record { incore = true; read = true; write = true; frame = f }))
              (pool_with (cleared frames f) vm)))
unfolding zero_fill unmapped
zero_fill_lem self f vm ts frames e away lt more =
    let full : Pte = record { incore = true; read = true; write = true; frame = f } in
    let m = frame_map_lem f self ts frames vm.pool.pages vm.pool.free_frames lt more in
    let u = frame_unmap-frame_map f self ts frames vm.pool.pages vm.pool.free_frames lt more away in
    let u' = rw m at (u.2) in
    ap
      (λ o.
        fill_mapped self f (pool_with frames vm)
          (frame_map (pos f) self (entries o) (pool_with frames vm).pool))
      e
    ∙ ap (fill_mapped self f (pool_with frames vm)) m
    ∙ fill_mapped_lem self f (pool_with frames vm) (some (spare ts)) (set ts (spare ts) full) ts _ _
        e u'

-- What the round leaves: the page is in core in the frame, the frame is in use and not mapped, the
-- pager's own table has its spare page back, and the counters have moved.
pub record PagedIn (mmu : Mmu) (self pid page f : ℕ) (ts : Table) (frames : List Frame)
    (p q : Paging mmu) : Type 0 where
  pub entry :
      pte (table_of q.vm pid) page ≡ record { incore = true; read = true; write = true; frame = f }
  pub own : table_of q.vm self ≡ set ts (spare ts) empty_pte
  pub frames_lem :
      q.vm.pool.frames
      ≡ some (set frames f (record { is_being_used = true; mapped_process_id = minus_one }))
  pub free_frames : q.vm.pool.free_frames ≡ p.vm.pool.free_frames - 1
  pub swap : q.vm.swap ≡ with_block pid page f p.vm.swap
  pub faults : q.faults ≡ p.faults + 1
  pub fresh : q.fresh ≡ p.fresh + 1

module _ (mmu : Mmu) (max_proc page_size self pid offset : ℕ) (p : Paging mmu) (frames : List Frame)
    (t ts : Table) (pooled : p.vm.pool.frames ≡ some frames)
    (free : find_index is_unused frames < length frames) (ready : p.vm.swap.is_init ≡ true)
    (in_frames : find_index is_unused frames < p.vm.swap.frames) (known : pid < max_proc)
    (in_pages : offset / page_size < p.vm.swap.pages)
    (has_table : get_or p.vm.tables pid none ≡ some t) (in_table : offset / page_size < length t)
    (own_table : get_or p.vm.tables self none ≡ some ts) (other : pid ≢ self)
    (away : maps_any (find_index is_unused frames) ts ≡ false) (room : spare ts < length ts)
    (new : IsNew pid (offset / page_size) p.vm.swap) (counts : Counts p.vm.swap)
    (more : 0 < p.vm.swap.free_blocks) where
  abbrev page : ℕ
  page = offset / page_size

  abbrev f : ℕ
  f = find_index is_unused frames

  abbrev x : Fault
  x = record { pid = pid; offset = offset; cause = Cause.fault }

  abbrev used : List Frame
  used = set frames f (record (get_or frames f unused_frame) { is_being_used = true })

  abbrev counted : Paging mmu
  counted = record p { faults = p.faults + 1 }

  abbrev taken : Paging mmu
  taken = record counted { vm = pool_with used p.vm }

  abbrev swapped : Vm
  swapped =
      put_table pid (map_page page f t) (record p.vm { swap = with_block pid page f p.vm.swap })

  abbrev filled : Vm
  filled = put_table self (set ts (spare ts) empty_pte) (
      put_table self
        (set ts (spare ts) (record { incore = true; read = true; write = true; frame = f }))
        (pool_with (cleared used f) swapped))

  choose : choose_frame mmu self frames counted ≡ chosen f true taken
  unfolding choose_frame
  choose = rw (lt→ltb _ _ free) refl

  started :
      round mmu max_proc page_size self x p ≡ page_in mmu max_proc self x page (chosen f true taken)
  unfolding round
  started =
      ap
        (λ o. page_in mmu max_proc self x page (
          choose_frame mmu self (elim o as (λ _. List Frame) [ none ↦ [] | some fs ↦ fs ]) counted))
        pooled
      ∙ ap (page_in mmu max_proc self x page) choose

  brought :
      page_in mmu max_proc self x page (chosen f true taken)
      ≡ after_swap_in mmu self x page f true Code.empty_page
          (record counted { vm = pool_with used swapped })
  unfolding page_in
  brought =
      let copy = zero_fill self f taken.vm in
      ap
        (λ (r : Code × Table × Swap). after_swap_in mmu self x page f true r.0 (record taken {
          vm = put_table pid r.1 (record (copied_vm r.0 copy taken.vm) { swap = r.2 });
        }))
        (ap
            (λ o.
              swap_in max_proc (is_some copy) (pos pid) (pos page) (pos f) (entries o) p.vm.swap)
            has_table
          ∙ swap_in_new max_proc pid page f p.vm.swap ready known in_pages in_frames (is_some copy)
              t new counts more)

  own_there : get_or swapped.tables self none ≡ some ts
  own_there = put_table_ne pid self (map_page page f t) p.vm other ∙ own_table

  used_there : f < length used
  used_there = rw (length-set) free

  zeroed :
      after_swap_in mmu self x page f true Code.empty_page
        (record counted { vm = pool_with used swapped })
      ≡ finish mmu x page f true (some f) (record counted { vm = filled })
  unfolding after_swap_in
  zeroed =
      rw (zero_fill_lem self f swapped ts used own_there away used_there room, after_swap_in) refl

  paged : Paging mmu
  paged =
      let vm =
        put_table pid
          (set (table_of filled pid) page
            (record { incore = true; read = true; write = true; frame = f }))
          filled in
      record counted {
        vm = record vm { pool = record vm.pool { free_frames = vm.pool.free_frames - 1 } };
        fresh = p.fresh + 1;
      }

  finished :
      finish mmu x page f true (some f) (record counted { vm = filled }) ≡ resumes (some f) paged
  unfolding finish paged
  finished = refl

  half : Vm
  half =
      put_table self
        (set ts (spare ts) (record { incore = true; read = true; write = true; frame = f }))
        (pool_with (cleared used f) swapped)

  half_own :
      get_or half.tables self none
      ≡ some (set ts (spare ts) (record { incore = true; read = true; write = true; frame = f }))
  unfolding half
  half_own = put_table_self self _ (pool_with (cleared used f) swapped) own_there

  filled_table : get_or filled.tables pid none ≡ some (map_page page f t)
  unfolding half
  filled_table =
      put_table_ne self pid (set ts (spare ts) empty_pte) half (λ e. other (sym e))
      ∙ put_table_ne self pid _ (pool_with (cleared used f) swapped) (λ e. other (sym e))
      ∙ put_table_self pid (map_page page f t) p.vm has_table

  paged_entry :
      pte (table_of paged.vm pid) page
      ≡ record { incore = true; read = true; write = true; frame = f }
  unfolding paged
  paged_entry =
      let full : Pte = record { incore = true; read = true; write = true; frame = f } in
      ap (λ o. pte (entries o) page)
        (put_table_self pid (set (table_of filled pid) page full) filled filled_table)
      ∙ get_or-set_self (table_of filled pid) page full empty_pte
          (subst (λ u. page < length u) (sym (ap entries filled_table)) (rw length-set in_table))

  paged_own : table_of paged.vm self ≡ set ts (spare ts) empty_pte
  unfolding paged half
  paged_own = ap entries (
      put_table_ne pid self _ filled other
      ∙ put_table_self self (set ts (spare ts) empty_pte) half half_own)

  paged_frames :
      cleared used f ≡ set frames f (record { is_being_used = true; mapped_process_id = minus_one })
  paged_frames =
      set-set frames f _ _
      ∙ ap (λ (g : Frame). set frames f (record g { mapped_process_id = minus_one }))
          (get_or-set_self frames f _ unused_frame free)

  -- A pager, whose own page table has a page that is not in core and does not map the frame,
  -- takes the fault of another process on a page that was never swapped, while a frame of the
  -- pool and a block of the swap space are free and the counts of the swap space are right. The
  -- round wakes the process with the page in the first unused frame, readable and writable. The
  -- frame is in use and mapped by nobody, the page that the pager mapped for the zero fill is
  -- empty again, the block of the swap space is taken for the page, there is one free frame less,
  -- and the faults and the new pages have grown by one.
  pub round-PagedIn :
      (q : Paging mmu) × (round mmu max_proc page_size self x p ≡ resumes (some f) q)
      × PagedIn mmu self pid page f ts frames p q
  unfolding paged
  round-PagedIn = (
    paged,
    started ∙ brought ∙ zeroed ∙ finished,
    record {
      entry = paged_entry;
      own = paged_own;
      frames_lem = ap some paged_frames;
      free_frames = refl;
      swap = refl;
      faults = refl;
      fresh = refl;
    },
  )
