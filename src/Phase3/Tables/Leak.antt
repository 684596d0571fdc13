-- ===== src/Phase3/Tables/Leak.antt =====
-- What `P3_FreePageTable` leaves of a process's frames and page table.
use small_os_simulator.Common.{
  ℕ, ◌≡◌, refl, Option, none, some, List, [], ◌∷◌, arith, length, get_or, set, ℤ, index, Bool-cases,
  inl, inr, Option-cases, if_intro,
}
use small_os_simulator.Phase3.Types.{Code, Table, Frame}
use small_os_simulator.Phase3.Frames.{Pool, frame_free_all}
use small_os_simulator.Phase3.Frames.Laws.{in_core, free_pages_none}
use small_os_simulator.Phase3.Swap.{Swap, Info, fresh_info, release_pages, swap_free_all}
use small_os_simulator.Phase3.Tables.{Vm, finish_free, free_frames_of, free_known, free_page_table}

-- `P3SwapFreeAll` takes every page out of core.
pub in_core-release_pages :
    (table : Table) (infos : List Info) → in_core (release_pages table infos).0 ≡ 0
unfolding release_pages
in_core-release_pages [] infos = refl
in_core-release_pages (e ∷ table) infos = elim (Bool-cases e.incore) [
  | inl c ↦ rw c (omega (arith, in_core-release_pages table (set infos e.frame fresh_info)))
  | inr n ↦ rw n (omega (arith, in_core-release_pages table infos))
]

in_core-swap_free_all :
    (pid : ℕ) (table : Table) (s : Swap) (rest : Table) (left : Swap)
    → swap_free_all pid table s ≡ (Code.success, rest, left)
    → in_core rest ≡ 0
unfolding swap_free_all
in_core-swap_free_all pid table s rest left e = ground (arith, in_core-release_pages table s.infos)

-- So `P3FrameFreeAll`, which looks for pages in core, leaves the pool as it is.
frame_free_all_none :
    (table : Table) (frames : Option (List Frame)) (pages free : ℕ)
    → in_core table ≡ 0
    → let p : Pool = record { frames = frames; pages = pages; free_frames = free } in
      (frame_free_all table p).2 ≡ p
unfolding frame_free_all
frame_free_all_none table none pages free h = refl
frame_free_all_none table (some frames) pages free h =
    ground (arith, free_pages_none table frames 0 h)

pool-finish_free :
    (pid : ℕ) (vm : Vm) (r : Code × Table × Pool)
    → r.2 ≡ vm.pool
    → (finish_free pid vm r).pool ≡ vm.pool
unfolding finish_free
pool-finish_free pid vm (Code.success, table, pool) e = e
pool-finish_free pid vm (_, table, pool) e = refl

pool-free_frames_of :
    (pid : ℕ) (vm : Vm) (table : Table) (r : Code × Table × Swap)
    → swap_free_all pid table vm.swap ≡ r
    → (free_frames_of pid vm r).pool ≡ vm.pool
unfolding free_frames_of
pool-free_frames_of pid vm table (Code.success, rest, swap) e =
    pool-finish_free pid _ (frame_free_all rest vm.pool) (
      frame_free_all_none rest vm.pool.frames vm.pool.pages vm.pool.free_frames
        (in_core-swap_free_all pid table vm.swap rest swap e))
pool-free_frames_of pid vm table (_, rest, swap) e = refl

pool-free_known : (i : ℕ) (vm : Vm) (table : Option Table) → (free_known i vm table).pool ≡ vm.pool
unfolding free_known
pool-free_known i vm none = refl
pool-free_known i vm (some table) =
    pool-free_frames_of i vm table (swap_free_all i table vm.swap) refl

-- `P3_FreePageTable` never gives a frame back to the pool: the pool is what it was.
pub pool-free_page_table : (pid : ℤ) (vm : Vm) → (free_page_table pid vm).pool ≡ vm.pool
unfolding free_page_table
pool-free_page_table pid vm = elim (Option-cases (index (length vm.tables) pid)) [
  | inl e ↦ rw (e, free_page_table)
  | inr (i, e) ↦
      rw (e, free_page_table)
        (if_intro (λ (w : Vm). w.pool ≡ vm.pool) vm.initialized
          (pool-free_known i vm (get_or vm.tables i none)) refl)
]
