-- ===== src/Phase3/Pager/Laws.antt =====
-- The pager when no frame is free and every victim has to be written back.
use small_os_simulator.Common.{
  ◌≤◌, ◌∷◌, ℤ, pos, negsuc, false, subst, get_or, set, pos_part, ℕ, zero, suc, ◌+◌, ◌*◌, ◌/◌, ◌%◌,
  ◌<◌, ◌≡◌, refl, sym, ◌∙◌, ap, true, false, Option, none, some, List, [], if_true, if_false, arith,
  ltb, length, find_index, eqb_ℤ, minus_one, Bool-cases, inl, inr, ◌==◌, ==→eq, ==→ne,
}
use small_os_simulator.Phase3.Types.{Frame, Pte, pte, Table}
use small_os_simulator.Phase3.Frames.{Pool, frame_map, not_incore}
use small_os_simulator.Phase3.Frames.Laws.{frame_map_lem}
use small_os_simulator.Phase3.Swap.{
  Mmu, Info, Swap, block, info, clock, unreference, evict, take_out,
}
use small_os_simulator.Phase3.Swap.Clock.{clock_total, clock_sound}
use small_os_simulator.Phase3.Pager.{
  Cause, Fault, entries, table_of, all_entries, map_held, Paging, self_blocked, is_unused, victim,
  choose_victim, choose_frame, waits_forever, page_in, round,
}

-- A page of the table is not in core.
abbrev pub HasRoom : Table → Type 0
HasRoom t = find_index not_incore t < length t

get_or-all_entries :
    (ts : List (Option Table)) (i : ℕ) → get_or (all_entries ts) i [] ≡ entries (get_or ts i none)
unfolding all_entries
get_or-all_entries [] i = refl
get_or-all_entries (t ∷ ts) zero = refl
get_or-all_entries (t ∷ ts) (suc i) = get_or-all_entries ts i

-- A page that leaves the core does not take the room.
HasRoom-set :
    (t : Table) (page : ℕ) (e : Pte)
    → HasRoom t
    → HasRoom (set t page (record e { incore = false }))
unfolding find_index
HasRoom-set [] page e h = absurd (omega arith)
HasRoom-set (x ∷ t) zero e h = ground arith
HasRoom-set (x ∷ t) (suc page) e h = ground (arith, HasRoom-set t page e)

HasRoom-put :
    (ts : List Table) (i j page : ℕ) (e : Pte)
    → HasRoom (get_or ts j [])
    → HasRoom (get_or (set ts i (set (get_or ts i []) page (record e { incore = false }))) j [])
HasRoom-put [] i j page e h = absurd (omega arith)
HasRoom-put (t ∷ ts) zero zero page e h = HasRoom-set t page e h
HasRoom-put (t ∷ ts) zero (suc j) page e h = h
HasRoom-put (t ∷ ts) (suc i) zero page e h = h
HasRoom-put (t ∷ ts) (suc i) (suc j) page e h = HasRoom-put ts i j page e h

HasRoom-evicted :
    (mmu : Mmu) (b : ℤ) (s : Swap) (ts : List Table) (j : ℕ)
    → HasRoom (get_or ts j [])
    → HasRoom (get_or (evict mmu b s ts) j [])
unfolding evict
HasRoom-evicted mmu (negsuc n) s ts j h = h
HasRoom-evicted mmu (pos b) s ts j h = at (block s b).pid refl
  where
    at : (pid : ℤ) → (block s b).pid ≡ pid → HasRoom (get_or (evict mmu (pos b) s ts) j [])
    at (pos pid) e =
        rw (e, evict)
          (HasRoom-put ts pid j (pos_part (block s b).page)
            (pte (get_or ts pid []) (pos_part (block s b).page)) h)
    at (negsuc n) e = rw (e, evict) h

module _ (mmu : Mmu) where
  open mmu use {Bits, get_access, set_access, get-set_self, get-set_ne}

  dirty-unreference :
      (f g : ℕ) (m : Bits) → (get_access (unreference mmu f m) g).dirty ≡ (get_access m g).dirty
  dirty-unreference f g m = elim (Bool-cases (f == g)) [
    | inl e ↦ rw (← (==→eq f g e)) (ap (λ a. a.dirty) (get-set_self m f _))
    | inr e ↦ ap (λ a. a.dirty) (get-set_ne m f g _ (==→ne f g e))
  ]

  -- The clock of `P3SwapOut` changes no dirty bit.
  dirty-clock :
      (fuel frames next : ℕ) (infos : List Info) (m m' : Bits) (target g : ℕ)
      → clock mmu fuel frames next infos m ≡ some (target, m')
      → (get_access m' g).dirty ≡ (get_access m g).dirty
  unfolding clock
  dirty-clock zero frames next infos m m' target g e = cc
  dirty-clock (suc fuel) frames next infos m m' target g e =
      elim (Bool-cases (info infos (next % frames)).is_busy) [
        | inl busy ↦
            dirty-clock fuel frames (suc (next % frames)) infos m m' target g (rw busy at e)
        | inr idle ↦ elim (Bool-cases (get_access m (next % frames)).referenced) [
          | inl set ↦
              dirty-clock fuel frames (suc (next % frames)) infos _ m' target g
                (rw (idle, set) at e)
              ∙ dirty-unreference (next % frames) g m
          | inr clear ↦
              let e' = rw (idle, clear) at e in
              let same : m ≡ m' = ground arith in ap (λ b. (get_access b g).dirty) (sym same)
        ]
      ]

  map_held_lem :
      (f self : ℕ) (ts : Table) (frames : List Frame) (pool : Pool)
      → pool.frames ≡ some frames
      → f < length frames
      → HasRoom ts
      → map_held mmu (frame_map (pos f) self ts pool) ≡ self_blocked
  unfolding map_held
  map_held_lem f self ts frames pool pooled lt room =
      ap (λ o. map_held mmu (frame_map (pos f) self ts (record pool { frames = o }))) pooled
      ∙ ap (map_held mmu) (frame_map_lem f self ts frames pool.pages pool.free_frames lt room)

  module _ (self : ℕ) (p : Paging mmu) (frames : List Frame) (k : ℕ)
      (pooled : p.vm.pool.frames ≡ some frames) (enough : p.vm.swap.frames ≤ length frames)
      (room : HasRoom (table_of p.vm self)) (ready : p.vm.swap.is_init ≡ true)
      (in_frames : k < p.vm.swap.frames) (idle : (info p.vm.swap.infos k).is_busy ≡ false)
      (written : (g : ℕ)
        → g < p.vm.swap.frames
        → (info p.vm.swap.infos g).is_busy ≡ false
        → ((get_access p.bits g).dirty ≡ true)
          × (eqb_ℤ (info p.vm.swap.infos g).block_num minus_one ≡ false)) where
    blocked_at :
        (o : Option (ℕ × Bits))
        → clock mmu
            (2 * p.vm.swap.frames)
            p.vm.swap.frames
            p.vm.swap.next_hand
            p.vm.swap.infos
            p.bits
          ≡ o
        → victim mmu self p o ≡ self_blocked
    unfolding victim take_out
    blocked_at none e = absurd (
        clock_total mmu p.vm.swap.frames p.vm.swap.infos p.vm.swap.next_hand k p.bits in_frames idle
          e)
    blocked_at (some (target, m)) e =
        let at =
          clock_sound mmu p.vm.swap.frames p.vm.swap.infos (2 * p.vm.swap.frames)
            p.vm.swap.next_hand target p.bits m (omega arith) e in
        let back = written target (at.0) (at.1) in
        let dirty =
          dirty-clock (2 * p.vm.swap.frames) p.vm.swap.frames p.vm.swap.next_hand p.vm.swap.infos
            p.bits m target target e
          ∙ back.0 in
        let kept : HasRoom
            (get_or (take_out mmu target m (all_entries p.vm.tables) p.vm.swap).tables self []) =
          HasRoom-evicted mmu (info p.vm.swap.infos target).block_num p.vm.swap
            (all_entries p.vm.tables) self
            (subst HasRoom (sym (get_or-all_entries p.vm.tables self)) room) in
        rw (dirty, back.1)
          (map_held_lem target self _ frames p.vm.pool pooled (omega (arith, at.0, enough)) kept)

    victim_blocks : choose_victim mmu self p ≡ self_blocked
    unfolding choose_victim
    victim_blocks = if_true _ _ ready ∙ blocked_at _ refl

  -- If no frame of the pool is free, the swap space is initialised for no more frames than the
  -- pool has, the pager's own page table has a page that is not in core, some frame is not busy,
  -- and all frames that are not busy are dirty and hold pages with a copy on the disk, then a
  -- round of the pager on a fault never ends: the pager waits for a mutex that it holds.
  pub round_waits :
      (max_proc page_size self pid offset k : ℕ) (p : Paging mmu) (frames : List Frame)
      → p.vm.pool.frames ≡ some frames
      → find_index is_unused frames ≡ length frames
      → p.vm.swap.frames ≤ length frames
      → HasRoom (table_of p.vm self)
      → p.vm.swap.is_init ≡ true
      → k < p.vm.swap.frames
      → (info p.vm.swap.infos k).is_busy ≡ false
      → ((g : ℕ)
          → g < p.vm.swap.frames
          → (info p.vm.swap.infos g).is_busy ≡ false
          → ((get_access p.bits g).dirty ≡ true)
            × (eqb_ℤ (info p.vm.swap.infos g).block_num minus_one ≡ false))
      → round mmu max_proc page_size self
          (record { pid = pid; offset = offset; cause = Cause.fault })
          p
        ≡ waits_forever
  unfolding round choose_frame page_in
  round_waits max_proc page_size self pid offset k p frames pooled full enough room ready lt idle
        written =
      let counted : Paging mmu = record p { faults = p.faults + 1 } in
      let x : Fault = record { pid = pid; offset = offset; cause = Cause.fault } in
      let none_free : ltb (find_index is_unused frames) (length frames) ≡ false = ground arith in
      ap
        (λ o. page_in mmu max_proc self x (offset / page_size) (
          choose_frame mmu self (elim o as (λ _. List Frame) [ none ↦ [] | some fs ↦ fs ]) counted))
        pooled
      ∙ ap (page_in mmu max_proc self x (offset / page_size)) (
          if_false _ _ none_free
          ∙ victim_blocks self counted frames k pooled enough room ready lt idle written)
