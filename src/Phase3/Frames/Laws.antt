-- ===== src/Phase3/Frames/Laws.antt =====
-- What the frame operations of phase3c.c do to page tables and the pool.
use small_os_simulator.Common.{
  set-set, ℕ, zero, suc, ◌+◌, ◌<◌, ◌≡◌, refl, sym, Bool, true, false, ◌||◌, some, List, [], ◌∷◌,
  arith, length, length-set, get_or, set, find_index, get_or-set_self, get_or-set_ne, get_or_out,
  ◌==◌, if◌then◌else◌, Bool-cases, inl, inr, ==→eq, ==→ne, pos, minus_one, ==_refl,
}
use native.Mathlib.Decide.{dec_lt}
use small_os_simulator.Phase3.Types.{Code, Pte, Table, empty_pte, Frame, unused_frame}
use small_os_simulator.Phase3.Frames.{Pool, free_pages, frame_map, frame_unmap, not_incore, maps}

-- Whether a page in core has this frame.
abbrev pub maps_any : ℕ → Table → Bool
maps_any f [] = false
maps_any f (e ∷ table) = maps f e || maps_any f table

abbrev pub in_core : Table → ℕ
in_core [] = 0
in_core (e ∷ table) = (if e.incore then 1 else 0) + in_core table

-- A frame that is set unused is unused, in the pool or not.
get_or-set_unused :
    (frames : List Frame) (i f : ℕ)
    → get_or (set frames i unused_frame) f unused_frame
      ≡ (if f == i then unused_frame else get_or frames f unused_frame)
get_or-set_unused frames i f = elim (Bool-cases (f == i)) [
  | inl e ↦
      rw (e, ==→eq f i e)
        (elim (dec_lt i (length frames)) [
          | yes lt ↦ get_or-set_self frames i unused_frame unused_frame lt
          | no out ↦
              get_or_out (set frames i unused_frame) i unused_frame
                (omega (arith, length-set frames i unused_frame))
        ])
  | inr n ↦ rw n (get_or-set_ne frames i f unused_frame unused_frame (λ p. ==→ne f i n (sym p)))
]

-- The loop of `P3FrameFreeAll` counts the pages in core, leaves none in core, and makes exactly the
-- frames that such a page maps unused.
pub free_pages_lem :
    (table : Table) (frames : List Frame) (used f : ℕ)
    → let (table', frames', used') = free_pages table frames used in
      (used' ≡ used + in_core table)
      × (in_core table' ≡ 0)
      × (get_or frames' f unused_frame
          ≡ (if maps_any f table then unused_frame else get_or frames f unused_frame))
unfolding free_pages
free_pages_lem [] frames used f = (omega arith, refl, refl)
free_pages_lem (e ∷ table) frames used f = elim (Bool-cases e.incore) [
  | inl c ↦ rw c (
      let ih = free_pages_lem table (set frames e.frame unused_frame) (used + 1) f in
      ground (arith, get_or-set_unused frames e.frame f))
  | inr n ↦ rw n (let ih = free_pages_lem table frames used f in ground arith)
]

-- A table with no page in core is left as it is, and so is the pool.
pub free_pages_none :
    (table : Table) (frames : List Frame) (used : ℕ)
    → in_core table ≡ 0
    → free_pages table frames used ≡ (table, frames, used)
unfolding free_pages
free_pages_none [] frames used h = refl
free_pages_none (e ∷ table) frames used h = ground (arith, free_pages_none table frames used)

find_index-set :
    (f : ℕ) (table : Table) (i : ℕ) (e : Pte)
    → maps f e ≡ true
    → maps_any f table ≡ false
    → i < length table
    → find_index (maps f) (set table i e) ≡ i
unfolding find_index
find_index-set f [] i e m h lt = absurd (omega arith)
find_index-set f (x ∷ table) zero e m h lt = ground arith
find_index-set f (x ∷ table) (suc i) e m h lt = ground (arith, find_index-set f table i e m)

module _ (f pid : ℕ) (table : Table) (frames : List Frame) (pages free : ℕ)
    (in_pool : f < length frames) (room : find_index not_incore table < length table) where
  abbrev page : ℕ
  page = find_index not_incore table

  abbrev pool : List Frame → Pool
  pool fs = record { frames = some fs; pages = pages; free_frames = free }

  abbrev mapped_frames : List Frame
  mapped_frames =
      set frames f (record (get_or frames f unused_frame) { mapped_process_id = pos pid })

  abbrev mapped_pte : Pte
  mapped_pte = record { incore = true; read = true; write = true; frame = f }

  pub frame_map_lem :
      frame_map (pos f) pid table (pool frames)
      ≡ (Code.success, some page, set table page mapped_pte, pool mapped_frames)
  unfolding frame_map
  frame_map_lem = ground arith

  back :
      set mapped_frames f
        (record (get_or mapped_frames f unused_frame) { mapped_process_id = minus_one })
      ≡ set frames f (record (get_or frames f unused_frame) { mapped_process_id = minus_one })
  back = rw (get_or-set_self frames f _ unused_frame in_pool) (set-set frames f _ _)

  frame_unmap_mapped :
      maps_any f table ≡ false
      → frame_unmap (pos f) pid (set table page mapped_pte) (pool mapped_frames) ≡ (
        Code.success,
        set table page empty_pte,
        pool (
            set frames f (record (get_or frames f unused_frame) { mapped_process_id = minus_one })),
      )
  unfolding frame_unmap
  frame_unmap_mapped fresh = ground (
    arith,
    back,
    length-set frames f (record (get_or frames f unused_frame) { mapped_process_id = pos pid }),
    get_or-set_self frames f (record (get_or frames f unused_frame) { mapped_process_id = pos pid })
        unused_frame in_pool,
    find_index-set f table page mapped_pte (==_refl f) fresh room,
    set-set table page mapped_pte empty_pte,
  )

  -- With a frame of the pool that no page of the process maps and a page that is not in core,
  -- `P3FrameMap` succeeds with the first such page, and `P3FrameUnmap` on what it leaves
  -- succeeds, empties the entry of that page, and leaves every frame as it was but for the mark
  -- of this one, which is -1.
  pub frame_unmap-frame_map :
      maps_any f table ≡ false
      → let (code, at, table', p') = frame_map (pos f) pid table (pool frames) in
        (code ≡ Code.success)
        × (at ≡ some page)
        × (frame_unmap (pos f) pid table' p' ≡ (
          Code.success,
          set table page empty_pte,
          pool (
              set frames f
                (record (get_or frames f unused_frame) { mapped_process_id = minus_one })),
        ))
  frame_unmap-frame_map fresh = rw frame_map_lem (refl, refl, frame_unmap_mapped fresh)
