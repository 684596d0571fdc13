-- ===== src/Phase3/Swap.antt =====
-- The swap space of phase3d.c: `P3SwapInit`, `P3SwapShutdown`, `P3SwapFreeAll`, `P3SwapOut` and
-- `P3SwapIn`. Each runs alone, as the code holds `blockPoolMutex` throughout. The MMU's access bits
-- belong to USLOSS, an interface here. Copies between a frame and the disk are a log, newest first.
pub mod Clock
pub mod Blocks
pub mod Again
use small_os_simulator.Common.{
  ℕ, zero, suc, ◌+◌, ◌-◌, ◌*◌, ◌/◌, ◌%◌, ◌==◌, ◌≡◌, ◌≢◌, Bool, true, false, not, ◌&&◌, ◌||◌, Option,
  none, some, List, [], ◌∷◌, ltb, if◌then◌else◌, length, get_or, set, replicate, find_index, ℤ, pos,
  minus_one, index, eqb_ℤ, pos_part,
}
use small_os_simulator.Phase3.Types.{Code, Pte, Table, pte, empty_pte}

-- The reference and dirty bits of a frame.
pub record Access : Type 0 where
  pub referenced : Bool
  pub dirty : Bool

-- `USLOSS_MmuGetAccess` and `USLOSS_MmuSetAccess`: what is set is read back, for that frame alone.
pub record Mmu : Type 1 where
  pub Bits : Type 0
  pub get_access : Bits → ℕ → Access
  pub set_access : ℕ → Access → Bits → Bits
  pub get-set_self : (b : Bits) (f : ℕ) (a : Access) → get_access (set_access f a b) f ≡ a
  pub get-set_ne :
      (b : Bits) (f g : ℕ) (a : Access) → f ≢ g → get_access (set_access f a b) g ≡ get_access b g

-- `Block`: a place on the swap disk for a page of a process; -1 in all fields if it is free.
pub record Block : Type 0 where
  pub pid : ℤ
  pub page : ℤ
  pub frame : ℤ
  pub track : ℤ
  pub first : ℤ

abbrev pub free_block : Block
free_block = record {
  pid = minus_one;
  page = minus_one;
  frame = minus_one;
  track = minus_one;
  first = minus_one;
}

-- `Frame` of phase3d.c.
pub record Info : Type 0 where
  pub is_busy : Bool
  pub block_num : ℤ

abbrev pub fresh_info : Info
fresh_info = record { is_busy = false; block_num = minus_one }

-- A copy of a frame to the disk (`P2_DiskWrite`) or back (`P2_DiskRead`), with track and first sector.
pub data Copy : Type 0 where
  write_out : ℕ → ℤ → ℤ → Copy
  read_in : ℕ → ℤ → ℤ → Copy

-- The statics of phase3d.c and what it keeps in `P3_vmStats`. `blocks` has `numberOfBlocks` entries,
-- `infos` has `FRAMES`. `next_hand` is `hand + 1`, so that the initial -1 is 0.
pub record Swap : Type 0 where
  pub is_init : Bool
  pub pages : ℕ
  pub frames : ℕ
  pub track : ℕ
  pub sectors_per_frame : ℕ
  pub free_blocks : ℕ
  pub blocks : List Block
  pub infos : List Info
  pub next_hand : ℕ
  pub stat_free_blocks : ℕ
  pub stat_blocks : ℕ
  pub page_ins : ℕ
  pub page_outs : ℕ
  pub copies : List Copy

abbrev pub block : Swap → ℕ → Block
block s i = get_or s.blocks i free_block

abbrev pub info : List Info → ℕ → Info
info infos f = get_or infos f fresh_info

-- `P3SwapInit`, given what `P2_DiskSize` and `USLOSS_MmuPageSize` report: bytes of a sector, sectors
-- of a track, tracks of the disk and bytes of a frame.
unfoldable pub swap_init : ℕ → ℕ → ℕ → ℕ → ℕ → ℕ → Swap → Code × Swap
swap_init pages frames sector track disk size_of_frame s =
    let per_frame = size_of_frame / sector + (if size_of_frame % sector == 0 then 0 else 1) in
    let number = track * disk / per_frame in
    if s.is_init then (Code.already_initialized, s) else (
      Code.success,
      record s {
        is_init = true;
        pages = pages;
        frames = frames;
        track = track;
        sectors_per_frame = per_frame;
        free_blocks = number;
        blocks = replicate number free_block;
        infos = replicate frames fresh_info;
        stat_free_blocks = number;
        stat_blocks = number;
      },
    )

-- `P3SwapShutdown`
unfoldable pub swap_shutdown : Swap → Code × Swap
swap_shutdown s =
    if s.is_init
    then (Code.success, record s { is_init = false; blocks = []; infos = [] })
    else (Code.not_initialized, s)

-- The first loop of `P3SwapFreeAll`, over the page table: no page stays in core, and its frame is
-- neither busy nor bound to a block. The frame number in the entry stays.
unfoldable pub release_pages : Table → List Info → Table × List Info
release_pages [] infos = ([], infos)
release_pages (e ∷ table) infos =
    let (rest, infos') =
      release_pages table (if e.incore then set infos e.frame fresh_info else infos) in
    (
      (if e.incore then record e { incore = false; read = false; write = false } else e) ∷ rest,
      infos',
    )

-- The second loop, over the blocks; the count is what `numberOfFreeBlocks` gains.
unfoldable pub release_blocks : ℕ → List Block → List Block × ℕ
release_blocks pid [] = ([], 0)
release_blocks pid (b ∷ bs) =
    let (rest, freed) = release_blocks pid bs in
    if eqb_ℤ b.pid (pos pid) then (free_block ∷ rest, suc freed) else (b ∷ rest, freed)

-- `P3SwapFreeAll`, given the process's page table.
unfoldable pub swap_free_all : ℕ → Table → Swap → Code × Table × Swap
unfolding release_pages release_blocks
swap_free_all pid table s =
    let (table', infos) = release_pages table s.infos in
    let (blocks, freed) = release_blocks pid s.blocks in
    if s.is_init
    then (
      Code.success,
      table',
      record s {
        infos = infos;
        blocks = blocks;
        free_blocks = s.free_blocks + freed;
        stat_free_blocks = s.free_blocks + freed;
      },
    )
    else (Code.not_initialized, table, s)

module _ (mmu : Mmu) where
  open mmu use {Bits, get_access, set_access}

  abbrev pub unreference : ℕ → Bits → Bits
  unreference f m = set_access f (record (get_access m f) { referenced = false }) m

  -- The loop of `P3SwapOut`: the clock hand passes busy frames and clears reference bits until it finds
  -- a frame that is neither busy nor referenced. None means that the fuel ran out.
  unfoldable pub clock : ℕ → ℕ → ℕ → List Info → Bits → Option (ℕ × Bits)
  clock zero frames next infos m = none
  clock (suc fuel) frames next infos m =
      let hand = next % frames in
      let passed = clock fuel frames (suc hand) infos m in
      let cleared = clock fuel frames (suc hand) infos (unreference hand m) in
      if (info infos hand).is_busy
      then passed
      else if (get_access m hand).referenced
      then cleared
      else some (hand, m)

  -- What `P3SwapOut` leaves: the target frame, the access bits, the page tables and the statics.
  pub record SwappedOut : Type 0 where
    pub target : ℕ
    pub bits : Bits
    pub tables : List Table
    pub swap : Swap

  -- The page that is in the frame with this block is no longer in core.
  unfoldable pub evict : ℤ → Swap → List Table → List Table
  evict (pos b) s tables = elim (block s b).pid [
    | pos pid ↦
        let table = get_or tables pid [] in
        let page = pos_part (block s b).page in
        set tables pid (set table page (record (pte table page) { incore = false }))
    | _ ↦ tables
  ]
  evict _ s tables = tables

  -- The copy of a dirty frame to its block.
  unfoldable pub write_back : ℕ → ℤ → Bits → Swap → Bits × Swap
  write_back target (pos b) m s =
      if (get_access m target).dirty
      then (
        set_access target (record (get_access m target) { dirty = false }) m,
        record s {
          copies = write_out target (block s b).track (block s b).first ∷ s.copies;
          page_outs = s.page_outs + 1;
        },
      )
      else (m, s)
  write_back target _ m s = (m, s)

  -- The part of `P3SwapOut` behind the loop, which chose `target`, where the assertions on
  -- `P3FrameMap` and `P3FrameUnmap`, called for the copy of a dirty frame, hold.
  unfoldable pub take_out : ℕ → Bits → List Table → Swap → SwappedOut
  unfolding evict write_back
  take_out target m tables s =
      let b = (info s.infos target).block_num in
      let (m', s') = write_back target b m s in
      record {
        target = target;
        bits = m';
        tables = evict b s tables;
        swap = record s' {
          infos = set s'.infos target (record { is_busy = true; block_num = minus_one });
          next_hand = suc target;
        };
      }

  -- `P3SwapOut`. The fuel covers two rounds of the clock hand.
  unfoldable pub swap_out : Bits → List Table → Swap → Code × Option SwappedOut
  unfolding clock take_out
  swap_out m tables s =
      if s.is_init
      then elim (clock (2 * s.frames) s.frames s.next_hand s.infos m) [
        | none ↦ (Code.success, none)
        | some (target, m') ↦ (Code.success, some (take_out target m' tables s))
      ]
      else (Code.not_initialized, none)

abbrev pub block_free : Block → Bool
block_free b = eqb_ℤ b.pid minus_one

abbrev pub holds_page : ℤ → ℤ → Block → Bool
holds_page pid page b = eqb_ℤ pid b.pid && eqb_ℤ page b.page

abbrev pub first_of_two : Option ℕ → Option ℕ → Option ℕ
first_of_two (some k) r = some k
first_of_two none r = r

-- The loop of `P3SwapIn`: the first block of the page and the first free block. The code stops when it
-- has both; the entries behind change neither.
unfoldable pub find_blocks : ℤ → ℤ → ℕ → Option ℕ → Option ℕ → List Block → Option ℕ × Option ℕ
find_blocks pid page i found vacant [] = (found, vacant)
find_blocks pid page i found vacant (b ∷ bs) =
    find_blocks pid page (suc i)
      (first_of_two found (if holds_page pid page b then some i else none))
      (first_of_two vacant (if block_free b then some i else none)) bs

-- The entry of the page, and the frame's own record, at the end of `P3SwapIn`.
abbrev pub map_page : ℕ → ℕ → Table → Table
map_page page frame table =
    set table page (record { incore = true; read = true; write = true; frame = frame })

abbrev pub bind_frame : ℕ → ℤ → Swap → Swap
bind_frame frame b s = record s {
  infos = set s.infos frame (record { is_busy = false; block_num = b });
}

-- The block that `P3SwapIn` gives to a page that has none.
abbrev pub claimed : ℕ → ℕ → ℕ → ℕ → Swap → Block
claimed pid page frame b s = record {
  pid = pos pid;
  page = pos page;
  frame = pos frame;
  track = pos (b * s.sectors_per_frame / s.track);
  first = pos (b * s.sectors_per_frame % s.track);
}

-- `P3SwapIn` from what the loop found: the page is on the disk, or there is no free block, or it gets
-- the free one. `copied` tells whether the assertions on `P3FrameMap` and `P3FrameUnmap` hold, which are
-- called for the copy into the frame. What these do to the caller's page table and to the frame pool
-- is up to the caller.
unfoldable pub bring_in :
    Bool → ℕ → ℕ → ℕ → Table → Swap → Option ℕ × Option ℕ → Code × Table × Swap
bring_in true pid page frame table s (some b, vacant) = (
  Code.success,
  map_page page frame table,
  bind_frame frame (pos b) (record s {
    copies = read_in frame (block s b).track (block s b).first ∷ s.copies;
    page_ins = s.page_ins + 1;
  }),
)
bring_in false pid page frame table s (some b, vacant) = (
  Code.assert_failed,
  table,
  record s {
    copies = read_in frame (block s b).track (block s b).first ∷ s.copies;
    page_ins = s.page_ins + 1;
  },
)
bring_in copied pid page frame table s (none, vacant) =
    if s.free_blocks == 0
    then (
      Code.out_of_swap,
      table,
      record s { infos = set s.infos frame (record (info s.infos frame) { is_busy = false }) },
    )
    else elim vacant [
      | none ↦ (
        Code.empty_page,
        map_page page frame table,
        bind_frame frame minus_one
            (record s { free_blocks = s.free_blocks - 1; stat_free_blocks = s.free_blocks - 1 }),
      )
      | some b ↦ (
        Code.empty_page,
        map_page page frame table,
        bind_frame frame (pos b) (record s {
          free_blocks = s.free_blocks - 1;
          stat_free_blocks = s.free_blocks - 1;
          blocks = set s.blocks b (claimed pid page frame b s);
        }),
      )
    ]

-- `P3SwapIn`, given `P1_MAXPROC`, `copied` and the page table of process `pid`. Where a free block is counted but
-- none is found, the code writes before the pool; the model then writes no block.
unfoldable pub swap_in : ℕ → Bool → ℤ → ℤ → ℤ → Table → Swap → Code × Table × Swap
unfolding find_blocks bring_in
swap_in max_proc copied pid page frame table s =
    if s.is_init
    then elim (index max_proc pid) [
      | none ↦ (Code.invalid_pid, table, s)
      | some p ↦ elim (index s.pages page) [
        | none ↦ (Code.invalid_page, table, s)
        | some g ↦ elim (index s.frames frame) [
          | none ↦ (Code.invalid_frame, table, s)
          | some f ↦
              bring_in copied p g f table s (find_blocks (pos p) (pos g) 0 none none s.blocks)
        ]
      ]
    ]
    else (Code.not_initialized, table, s)
