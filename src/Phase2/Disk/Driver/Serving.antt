-- ===== src/Phase2/Disk/Driver/Serving.antt =====
-- A checked request and the round that serves it.
use small_os_simulator.Common.{ℕ, ◌<◌, List, All}
use small_os_simulator.Phase2.Links.{Links}
use small_os_simulator.Phase2.Disk.{Request}
use small_os_simulator.Phase2.Disk.Transfer.{places}

-- Every transfer of a log is of a sector below `size`.
abbrev pub Within : ℕ → ℕ → List Request → Type 0
Within track_size size log = All (λ (p : ℕ × ℕ). p.0 < size) (places track_size log)
