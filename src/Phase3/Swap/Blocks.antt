-- ===== src/Phase3/Swap/Blocks.antt =====
-- The blocks of the swap disk: their count, where they lie, and how `P3SwapIn` finds them.
use small_os_simulator.Common.{
  false, replicate, ℕ, zero, suc, ◌+◌, ◌-◌, ◌*◌, ◌<◌, ◌≡◌, refl, sym, ◌∙◌, Bool, true, Option, none,
  some, List, [], ◌∷◌, arith, ◌==◌, if◌then◌else◌, ltb, length, get_or, set, find_index,
  find_index-holds, Option-cases, if_intro, index, ℤ, pos, pos_part, Bool-cases, inl, inr,
}
use mathlib.Core.Path.{ap₂}
use native.Mathlib.Nat.{div-add-mod, mod-lt}
use small_os_simulator.Phase3.Types.{Code, Table}
use small_os_simulator.Phase3.Swap.{
  swap_init, Block, Swap, free_block, block_free, holds_page, find_blocks, first_of_two, claimed,
  bring_in, swap_in, swap_free_all, release_blocks,
}

unfoldable pub count_free : List Block → ℕ
count_free [] = 0
count_free (b ∷ bs) = (if block_free b then 1 else 0) + count_free bs

-- `numberOfFreeBlocks` and the statistics count the blocks that are free.
pub record Counts (s : Swap) : Type 0 where
  pub counted : s.free_blocks ≡ count_free s.blocks
  pub reported : s.stat_free_blocks ≡ s.free_blocks

-- The index of the first block that passes a test, from `i` on.
abbrev pub first_index : (Block → Bool) → ℕ → List Block → Option ℕ
first_index test i bs =
    if ltb (find_index test bs) (length bs) then some (i + find_index test bs) else none

first_of_two-none : (o : Option ℕ) → first_of_two o none ≡ o
first_of_two-none none = refl
first_of_two-none (some k) = refl

first_index_step :
    (test : Block → Bool) (i : ℕ) (o : Option ℕ) (b : Block) (bs : List Block)
    → first_of_two (first_of_two o (if test b then some i else none)) (first_index test (suc i) bs)
      ≡ first_of_two o (first_index test i (b ∷ bs))
unfolding find_index
first_index_step test i (some k) b bs = refl
first_index_step test i none b bs = elim (Bool-cases (test b)) [
  | inl e ↦ rw e (ground arith)
  | inr e ↦ rw e (ground arith)
]

-- The loop of `P3SwapIn` finds the first block of the page and the first free block.
pub find_blocks_lem :
    (pid page : ℤ) (i : ℕ) (found vacant : Option ℕ) (bs : List Block)
    → find_blocks pid page i found vacant bs ≡ (
      first_of_two found (first_index (holds_page pid page) i bs),
      first_of_two vacant (first_index block_free i bs),
    )
unfolding find_blocks find_index
find_blocks_lem pid page i found vacant [] =
    ap₂ (λ a b. (a, b)) (sym (first_of_two-none found)) (sym (first_of_two-none vacant))
find_blocks_lem pid page i found vacant (b ∷ bs) =
    find_blocks_lem pid page (suc i) _ _ bs
    ∙ ap₂ (λ a b. (a, b)) (first_index_step (holds_page pid page) i found b bs)
        (first_index_step block_free i vacant b bs)

pub count_free_found : (bs : List Block) → 0 < count_free bs → find_index block_free bs < length bs
unfolding count_free find_index
count_free_found [] h = absurd (omega arith)
count_free_found (b ∷ bs) h = ground (arith, count_free_found bs)

count_free-set :
    (bs : List Block) (i : ℕ) (b : Block)
    → i < length bs
    → count_free (set bs i b) + (if block_free (get_or bs i free_block) then 1 else 0)
      ≡ count_free bs + (if block_free b then 1 else 0)
unfolding count_free
count_free-set [] i b h = absurd (omega arith)
count_free-set (x ∷ bs) zero b h = ground arith
count_free-set (x ∷ bs) (suc i) b h = ground (arith, count_free-set bs i b)

count_free-release :
    (pid : ℕ) (bs : List Block)
    → count_free (release_blocks pid bs).0 ≡ count_free bs + (release_blocks pid bs).1
unfolding count_free release_blocks
count_free-release pid [] = refl
count_free-release pid (b ∷ bs) = ground (arith, count_free-release pid bs)

-- `P3SwapFreeAll`, whatever it returns, keeps `numberOfFreeBlocks` and the statistics equal to the
-- number of free blocks.
pub swap_free_all-Counts :
    (pid : ℕ) (table : Table) {s : Swap} → Counts s → Counts (swap_free_all pid table s).2
unfolding swap_free_all
swap_free_all-Counts pid table {s} v = ground (arith, count_free-release pid s.blocks)

-- Where a claimed block lies on the disk, counted in sectors from its start.
abbrev pub start_sector : Block → Swap → ℕ
start_sector b s = pos_part b.track * s.track + pos_part b.first

-- On a disk whose tracks have sectors, the track and sector of a block that `P3SwapIn` takes are
-- the place at the block's index times the sectors of a frame, and the sector lies within the
-- track.
pub start_sector-claimed :
    (pid page frame b : ℕ) (s : Swap)
    → 0 < s.track
    → (start_sector (claimed pid page frame b s) s ≡ b * s.sectors_per_frame)
      × (pos_part (claimed pid page frame b s).first < s.track)
start_sector-claimed pid page frame b s h =
    (omega (arith, div-add-mod (b * s.sectors_per_frame) s.track), mod-lt _ h)

pub vacant_there :
    (bs : List Block)
    → find_index block_free bs < length bs
    → first_index block_free 0 bs ≡ some (find_index block_free bs)
vacant_there bs h = ground arith

claimed_counted :
    (pid page frame : ℕ) (s : Swap)
    → Counts s
    → find_index block_free s.blocks < length s.blocks
    → s.free_blocks - 1
      ≡ count_free (
          set s.blocks
            (find_index block_free s.blocks)
            (claimed pid page frame (find_index block_free s.blocks) s))
claimed_counted pid page frame s v there = ground (
  arith,
  v.counted,
  find_index-holds block_free s.blocks free_block there,
  count_free-set s.blocks (find_index block_free s.blocks)
      (claimed pid page frame (find_index block_free s.blocks) s) there,
)

bring_in-Counts :
    (copied : Bool) (pid page frame : ℕ) (table : Table) {s : Swap} (found : Option ℕ)
    → Counts s
    → Counts (bring_in copied pid page frame table s (found, first_index block_free 0 s.blocks)).2
unfolding bring_in
bring_in-Counts false pid page frame table (some b) v = record {
  counted = v.counted;
  reported = v.reported;
}
bring_in-Counts true pid page frame table (some b) v = record {
  counted = v.counted;
  reported = v.reported;
}
bring_in-Counts copied pid page frame table {s} none v = elim (Bool-cases (s.free_blocks == 0)) [
  | inl full ↦ rw full (record { counted = v.counted; reported = v.reported })
  | inr more ↦
      let there = count_free_found s.blocks (ground (arith, v.counted)) in
      rw (more, vacant_there s.blocks there)
        (record { counted = claimed_counted pid page frame s v there; reported = refl })
]

-- `P3SwapIn`, whatever its arguments and whatever it returns, keeps `numberOfFreeBlocks` and the
-- statistics equal to the number of free blocks.
pub swap_in-Counts :
    (max_proc : ℕ) (copied : Bool) (pid page frame : ℤ) (table : Table) {s : Swap}
    → Counts s
    → Counts (swap_in max_proc copied pid page frame table s).2
unfolding swap_in
swap_in-Counts max_proc copied pid page frame table {s} v =
    elim (Option-cases (index max_proc pid)) [
      | inl e ↦ rw (e, swap_in) (if_intro Kept s.is_init v v)
      | inr (p, e) ↦ elim (Option-cases (index s.pages page)) [
        | inl e' ↦ rw (e, e', swap_in) (if_intro Kept s.is_init v v)
        | inr (g, e') ↦ elim (Option-cases (index s.frames frame)) [
          | inl e'' ↦ rw (e, e', e'', swap_in) (if_intro Kept s.is_init v v)
          | inr (f, e'') ↦ rw (e, e', e'', swap_in) (if_intro Kept s.is_init (found p g f) v)
        ]
      ]
    ]
  where
    Kept : Code × Table × Swap → Type 0
    Kept r = Counts r.2

    found :
        (p g f : ℕ)
        → Counts
            (bring_in copied p g f table s (find_blocks (pos p) (pos g) 0 none none s.blocks)).2
    found p g f =
        rw (find_blocks_lem (pos p) (pos g) 0 none none s.blocks)
          (bring_in-Counts copied p g f table _ v)

-- The first block of a page, after a block that holds it has been written where none did.
pub holds_page-set :
    (pid page : ℤ) (bs : List Block) (i : ℕ) (b : Block)
    → holds_page pid page b ≡ true
    → find_index (holds_page pid page) bs ≡ length bs
    → i < length bs
    → find_index (holds_page pid page) (set bs i b) ≡ i
unfolding find_index
holds_page-set pid page [] i b m h lt = absurd (omega arith)
holds_page-set pid page (x ∷ bs) zero b m h lt = ground arith
holds_page-set pid page (x ∷ bs) (suc i) b m h lt = ground (arith, holds_page-set pid page bs i b m)

count_free-replicate : (n : ℕ) → count_free (replicate n free_block) ≡ n
unfolding count_free
count_free-replicate zero = refl
count_free-replicate (suc n) = ground (arith, count_free-replicate n)

-- `P3SwapInit` on a swap space that is not initialised, whatever the disk reports, leaves
-- `numberOfFreeBlocks` and the statistics equal to the number of free blocks.
pub swap_init-Counts :
    (pages frames sector track disk size_of_frame : ℕ) (s : Swap)
    → s.is_init ≡ false
    → Counts (swap_init pages frames sector track disk size_of_frame s).1
unfolding swap_init
swap_init-Counts pages frames sector track disk size_of_frame s e =
    rw e (record { counted = sym (count_free-replicate _); reported = refl })
