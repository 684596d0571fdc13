-- ===== src/Phase3/Swap/Again.antt =====
-- `P3SwapIn` of one page, twice: the block that it takes and where it looks for the page later.
use small_os_simulator.Common.{
  ℕ, ◌-◌, ◌<◌, ◌≡◌, refl, ◌∙◌, ap, Bool, true, Option, none, some, ◌∷◌, arith, length, length-set,
  set, find_index, pos, get_or-set_self,
}
use small_os_simulator.Phase3.Types.{Code, Table}
use small_os_simulator.Phase3.Swap.{
  Block, Swap, read_in, free_block, block_free, holds_page, claimed, bring_in, swap_in, map_page,
  bind_frame,
}
use small_os_simulator.Phase3.Swap.Blocks.{
  Counts, count_free_found, vacant_there, first_index, find_blocks_lem, holds_page-set,
}

swap_in_known :
    (max_proc : ℕ) (copied : Bool) (p g f : ℕ) (table : Table) (s : Swap)
    → s.is_init ≡ true
    → p < max_proc
    → g < s.pages
    → f < s.frames
    → swap_in max_proc copied (pos p) (pos g) (pos f) table s
      ≡ bring_in copied p g f table s
          (first_index (holds_page (pos p) (pos g)) 0 s.blocks, first_index block_free 0 s.blocks)
unfolding swap_in
swap_in_known max_proc copied p g f table s ready hp hg hf =
    ground (arith, find_blocks_lem (pos p) (pos g) 0 none none s.blocks)

-- No block holds this page.
abbrev pub IsNew : ℕ → ℕ → Swap → Type 0
IsNew p g s = find_index (holds_page (pos p) (pos g)) s.blocks ≡ length s.blocks

abbrev pub vacant : Swap → ℕ
vacant s = find_index block_free s.blocks

-- What `P3SwapIn` leaves of the statics for a page that has no block yet.
abbrev pub with_block : ℕ → ℕ → ℕ → Swap → Swap
with_block p g f s = bind_frame f (pos (vacant s)) (record s {
  free_blocks = s.free_blocks - 1;
  stat_free_blocks = s.free_blocks - 1;
  blocks = set s.blocks (vacant s) (claimed p g f (vacant s) s);
})

module _ (max_proc p g f : ℕ) (s : Swap) (ready : s.is_init ≡ true) (hp : p < max_proc)
    (hg : g < s.pages) (hf : f < s.frames) where
  bring_in_new :
      (copied : Bool) (table : Table)
      → IsNew p g s
      → Counts s
      → 0 < s.free_blocks
      → bring_in copied p g f table s
          (first_index (holds_page (pos p) (pos g)) 0 s.blocks, first_index block_free 0 s.blocks)
        ≡ (Code.empty_page, map_page g f table, with_block p g f s)
  unfolding bring_in
  bring_in_new copied table new v more =
      let there = count_free_found s.blocks (ground (arith, v.counted)) in
      rw (vacant_there s.blocks there) (ground arith)

  -- In an initialised swap space whose counts are right, with a free block and with page, process
  -- and frame in range, `P3SwapIn` of a page without a block gives it the first free block, maps
  -- the page to the frame, and returns P3_EMPTY_PAGE.
  pub swap_in_new :
      (copied : Bool) (table : Table)
      → IsNew p g s
      → Counts s
      → 0 < s.free_blocks
      → swap_in max_proc copied (pos p) (pos g) (pos f) table s
        ≡ (Code.empty_page, map_page g f table, with_block p g f s)
  swap_in_new copied table new v more =
      swap_in_known max_proc copied p g f table s ready hp hg hf
      ∙ bring_in_new copied table new v more

  held :
      vacant s < length s.blocks
      → IsNew p g s
      → first_index (holds_page (pos p) (pos g)) 0 (with_block p g f s).blocks ≡ some (vacant s)
  held there new = ground (
    arith,
    length-set s.blocks (vacant s) (claimed p g f (vacant s) s),
    holds_page-set (pos p) (pos g) s.blocks (vacant s) (claimed p g f (vacant s) s) (ground arith)
        new there,
  )

  read_back :
      vacant s < length s.blocks
      → (table : Table) (frame : ℕ) (o : Option ℕ)
      → let b = claimed p g f (vacant s) s in
        let (code, table', t) =
          bring_in true p g frame table (with_block p g f s) (some (vacant s), o) in
        (code ≡ Code.success)
        × (table' ≡ map_page g frame table)
        × (t.copies ≡ read_in frame b.track b.first ∷ s.copies)
  unfolding bring_in
  read_back there table frame o = (
    refl,
    refl,
    ap (λ (b : Block). read_in frame b.track b.first ∷ s.copies)
        (get_or-set_self s.blocks (vacant s) _ free_block there),
  )

  swap_in_later :
      (table : Table) (frame : ℕ)
      → IsNew p g s
      → Counts s
      → 0 < s.free_blocks
      → frame < s.frames
      → let b = claimed p g f (vacant s) s in
        let (code, table', t) =
          swap_in max_proc true (pos p) (pos g) (pos frame) table (with_block p g f s) in
        (code ≡ Code.success)
        × (table' ≡ map_page g frame table)
        × (t.copies ≡ read_in frame b.track b.first ∷ s.copies)
  swap_in_later table frame new v more hframe =
      rw
        (
          swap_in_known max_proc true p g frame table (with_block p g f s) ready hp hg hframe,
          held (count_free_found s.blocks (ground (arith, v.counted))) new,
        )
        (read_back (count_free_found s.blocks (ground (arith, v.counted))) table frame _)

  -- In an initialised swap space whose counts are right, with a free block and with page, process
  -- and frames in range: on what a first `P3SwapIn` of a page without a block leaves, a
  -- `P3SwapIn` of the same page into any frame that its caller can map and unmap for the copy
  -- succeeds, maps the page to that frame, and reads it from the track and sector of the first
  -- block that was free.
  pub swap_in_again :
      (copied : Bool) (first table : Table) (frame : ℕ)
      → IsNew p g s
      → Counts s
      → 0 < s.free_blocks
      → frame < s.frames
      → let b = claimed p g f (vacant s) s in
        let before = (swap_in max_proc copied (pos p) (pos g) (pos f) first s).2 in
        let (code, table', t) = swap_in max_proc true (pos p) (pos g) (pos frame) table before in
        (code ≡ Code.success)
        × (table' ≡ map_page g frame table)
        × (t.copies ≡ read_in frame b.track b.first ∷ s.copies)
  swap_in_again copied first table frame new v more hframe =
      rw (swap_in_new copied first new v more) (swap_in_later table frame new v more hframe)
