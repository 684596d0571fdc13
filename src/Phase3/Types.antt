-- ===== src/Phase3/Types.antt =====
-- The codes and structures of phase 3: phase3.h, phase3Int.h and the structs of phase3c.c and
-- phase3d.c, and page tables.
use small_os_simulator.Common.{ℕ, Bool, false, List, ℤ, minus_one, get_or}

-- The return codes of phase 3 by name, and `assert_failed` for an operation that an assertion stops.
pub data Code : Type 0 where
  success already_initialized not_initialized invalid_frame invalid_page invalid_pid : Code
  out_of_pages frame_not_mapped empty_page out_of_swap : Code
  invalid_num_pagers invalid_num_pages invalid_num_frames assert_failed : Code

-- `USLOSS_PTE`, as far as the code uses it.
pub record Pte : Type 0 where
  pub incore : Bool
  pub read : Bool
  pub write : Bool
  pub frame : ℕ

abbrev pub empty_pte : Pte
empty_pte = record { incore = false; read = false; write = false; frame = 0 }

abbrev pub Table : Type 0
Table = List Pte

abbrev pub pte : Table → ℕ → Pte
pte table i = get_or table i empty_pte

-- `Frame` of phase3c.c.
pub record Frame : Type 0 where
  pub is_being_used : Bool
  pub mapped_process_id : ℤ

abbrev pub unused_frame : Frame
unused_frame = record { is_being_used = false; mapped_process_id = minus_one }
