-- ===== src/Phase3/Frames.antt =====
-- The frame pool of phase3c.c: `P3FrameInit`, `P3FrameShutdown`, `P3FrameFreeAll`, `P3FrameMap` and
-- `P3FrameUnmap`. Each runs alone: the mutexes that the code takes around its parts are not in the
-- model. A page table is passed in and out, as `P3PageTableGet` hands it out by its address.
pub mod Laws
use small_os_simulator.Common.{
  ℕ, zero, suc, ◌+◌, ◌==◌, Bool, true, false, not, ◌&&◌, Option, none, some, List, [], ◌∷◌, ltb,
  if◌then◌else◌, length, get_or, set, replicate, find_index, ℤ, pos, minus_one, index, eqb_ℤ,
}
use small_os_simulator.Phase3.Types.{Code, Pte, Table, pte, empty_pte, Frame, unused_frame}

-- `framePool` (none for NULL; its length is `framePoolSize`), `numberOfPagesForOneProcess` and
-- `P3_vmStats.freeFrames`.
pub record Pool : Type 0 where
  pub frames : Option (List Frame)
  pub pages : ℕ
  pub free_frames : ℕ

-- `P3FrameInit`
unfoldable pub frame_init : ℕ → ℕ → Pool → Code × Pool
frame_init pages frames p = elim p.frames [
  | some _ ↦ (Code.already_initialized, p)
  | none ↦ (
    Code.success,
    record { frames = some (replicate frames unused_frame); pages = pages; free_frames = frames },
  )
]

-- `P3FrameShutdown`
unfoldable pub frame_shutdown : Pool → Code × Pool
frame_shutdown p = elim p.frames [
  | none ↦ (Code.not_initialized, p)
  | some _ ↦ (Code.success, record p { frames = none })
]

-- The loop of `P3FrameFreeAll` over the page table, which has one entry for each page: the frames of
-- the pages in core become unused and their entries empty. The count is `usedFrameCounter`.
unfoldable pub free_pages : Table → List Frame → ℕ → Table × List Frame × ℕ
free_pages [] frames used = ([], frames, used)
free_pages (e ∷ table) frames used =
    let (rest, frames', used') =
      free_pages table (if e.incore then set frames e.frame unused_frame else frames)
        (if e.incore then used + 1 else used) in
    ((if e.incore then empty_pte else e) ∷ rest, frames', used')

-- `P3FrameFreeAll`, given the process's page table.
unfoldable pub frame_free_all : Table → Pool → Code × Table × Pool
unfolding free_pages
frame_free_all table p = elim p.frames [
  | none ↦ (Code.not_initialized, table, p)
  | some frames ↦
      let (table', frames', used) = free_pages table frames 0 in
      (Code.success, table', record p { frames = some frames'; free_frames = p.free_frames + used })
]

abbrev pub not_incore : Pte → Bool
not_incore e = not e.incore

-- `P3FrameMap` by process `pid`: the code, the page that `*ptr` is the address of, its page table, and
-- the pool.
unfoldable pub frame_map : ℤ → ℕ → Table → Pool → Code × Option ℕ × Table × Pool
frame_map frame pid table p = elim p.frames [
  | none ↦ (Code.not_initialized, none, table, p)
  | some frames ↦ elim (index (length frames) frame) [
    | none ↦ (Code.invalid_frame, none, table, p)
    | some f ↦
        let i = find_index not_incore table in
        if ltb i (length table)
        then (
          Code.success,
          some i,
          set table i (record { incore = true; read = true; write = true; frame = f }),
          record p {
            frames = some (
                set frames f
                  (record (get_or frames f unused_frame) { mapped_process_id = pos pid }));
          },
        )
        else (Code.out_of_pages, none, table, p)
  ]
]

abbrev pub maps : ℕ → Pte → Bool
maps frame e = e.incore && frame == e.frame

-- `P3FrameUnmap` by process `pid`. Where no page maps the frame, the code writes behind the table; the
-- model then changes no entry.
unfoldable pub frame_unmap : ℤ → ℕ → Table → Pool → Code × Table × Pool
frame_unmap frame pid table p = elim p.frames [
  | none ↦ (Code.not_initialized, table, p)
  | some frames ↦ elim (index (length frames) frame) [
    | none ↦ (Code.invalid_frame, table, p)
    | some f ↦
        if eqb_ℤ (get_or frames f unused_frame).mapped_process_id (pos pid)
        then (
          Code.success,
          set table (find_index (maps f) table) empty_pte,
          record p {
            frames = some (
                set frames f
                  (record (get_or frames f unused_frame) { mapped_process_id = minus_one }));
          },
        )
        else (Code.frame_not_mapped, table, p)
  ]
]
