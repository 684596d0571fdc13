-- ===== src/Phase2/Disk/Transfer.antt =====
-- The loop of `DiskDriverReadWriteHelper`: how long it runs and what it transfers.
use small_os_simulator.Common.{
  ℕ, zero, suc, ◌+◌, ◌*◌, ◌≤◌, ◌<◌, ◌≡◌, ◌≢◌, refl, Bool, true, false, none, some, List, [], ◌∷◌,
  arith,
}
use small_os_simulator.Phase2.Disk.{
  Operation, succeeded, assert_failed, Request, ask_tracks, seek, transfer, serve, read_write, Span,
}

-- The track that the last seek of a log has moved to.
abbrev pub head_track : List Request → ℕ
head_track [] = 0
head_track (ask_tracks ∷ log) = head_track log
head_track (seek track ∷ log) = track
head_track (transfer op sector offset ∷ log) = head_track log

-- The transfers of a log: the sector, counted from the start of the disk, and the offset in the buffer.
abbrev pub places : ℕ → List Request → List (ℕ × ℕ)
places track_size [] = []
places track_size (ask_tracks ∷ log) = places track_size log
places track_size (seek track ∷ log) = places track_size log
places track_size (transfer op sector offset ∷ log) =
    (head_track log * track_size + sector, offset) ∷ places track_size log

-- `left` consecutive sectors from `at` on, with consecutive parts of the buffer, newest first.
abbrev pub stretch : ℕ → ℕ → ℕ → ℕ → List (ℕ × ℕ) → List (ℕ × ℕ)
stretch sector_size zero at offset done = done
stretch sector_size (suc left) at offset done =
    stretch sector_size left (suc at) (offset + sector_size) ((at, offset) ∷ done)

-- Whether a request moves the head or a sector.
abbrev pub is_move : Request → Bool
is_move ask_tracks = false
is_move _ = true

-- `USLOSS_DeviceOutput` takes every request that moves the head or a sector.
abbrev pub Takes : (List Request → Bool) → Type 0
Takes accepts = (r : Request) (log : List Request) → is_move r ≡ true → accepts (r ∷ log) ≡ true

module _ (accepts waits : List Request → Bool) (track_size sector_size : ℕ) (op : Operation) where
  serve_total :
      (left fuel track sector offset : ℕ) (log : List Request)
      → 0 < track_size
      → 2 * left ≤ fuel
      → serve accepts waits track_size sector_size op left fuel track sector offset log ≢ none
  unfolding serve
  serve_total zero fuel track sector offset log positive enough = cc
  serve_total (suc left) zero track sector offset log positive enough = absurd (omega arith)
  serve_total (suc left) (suc zero) track sector offset log positive enough = absurd (omega arith)
  serve_total (suc left) (suc (suc fuel)) track sector offset log positive enough = ground (
    arith,
    serve_total left fuel (suc track) 1 (offset + sector_size)
        (transfer op 0 offset ∷ seek (suc track) ∷ log),
    serve_total left (suc fuel) track (suc sector) (offset + sector_size)
        (transfer op sector offset ∷ log),
  )

  serve-places :
      (left fuel track sector offset : ℕ) (log log' : List Request)
      → head_track log ≡ track
      → sector ≤ track_size
      → serve accepts waits track_size sector_size op left fuel track sector offset log
        ≡ some (succeeded, log')
      → places track_size log'
        ≡ stretch sector_size left (track * track_size + sector) offset (places track_size log)
  unfolding serve
  serve-places zero fuel track sector offset log log' on inside e = ground arith
  serve-places (suc left) zero track sector offset log log' on inside e = cc
  serve-places (suc left) (suc fuel) track sector offset log log' on inside e = ground (
    arith,
    serve-places (suc left) fuel (suc track) 0 offset (seek (suc track) ∷ log) log' refl
        (omega arith),
    serve-places left fuel track (suc sector) (offset + sector_size)
        (transfer op sector offset ∷ log) log' on,
  )

  -- Where the device takes what it is asked, the loop meets no failed assertion.
  serve_runs :
      (left fuel track sector offset : ℕ) (log log' : List Request)
      → Takes accepts
      → serve accepts waits track_size sector_size op left fuel track sector offset log
        ≢ some (assert_failed, log')
  unfolding serve
  serve_runs zero fuel track sector offset log log' takes e = ground arith
  serve_runs (suc left) zero track sector offset log log' takes e = cc
  serve_runs (suc left) (suc fuel) track sector offset log log' takes e = ground (
    arith,
    takes (seek (suc track)) log refl,
    takes (transfer op sector offset) log refl,
    serve_runs (suc left) fuel (suc track) 0 offset (seek (suc track) ∷ log) log' takes,
    serve_runs left fuel track (suc sector) (offset + sector_size) (transfer op sector offset ∷ log)
        log' takes,
  )

  pub read_write_runs :
      (r : Span) (log log' : List Request)
      → Takes accepts
      → read_write accepts waits track_size sector_size op r log ≢ some (assert_failed, log')
  unfolding read_write
  read_write_runs r log log' takes e = ground (
    arith,
    takes (seek r.track) log refl,
    serve_runs r.sectors (2 * r.sectors) r.track r.first 0 (seek r.track ∷ log) log' takes,
  )

  -- On a disk whose tracks have sectors, the loop of `DiskDriverReadWriteHelper` ends within two
  -- rounds for each sector, by a return or by a failed assertion, whatever the device takes and
  -- answers.
  pub read_write_total :
      (r : Span) (log : List Request)
      → 0 < track_size
      → read_write accepts waits track_size sector_size op r log ≢ none
  unfolding read_write
  read_write_total r log positive = ground (
    arith,
    serve_total r.sectors (2 * r.sectors) r.track r.first 0 (seek r.track ∷ log) positive
        (omega arith),
  )

  -- When `DiskDriverReadWriteHelper` returns P1_SUCCESS for a first sector within the track or
  -- just behind it, it has moved exactly the sectors of the request, in order and across the ends
  -- of tracks, each to or from its own part of the buffer.
  pub read_write-places :
      (r : Span) (log log' : List Request)
      → r.first ≤ track_size
      → read_write accepts waits track_size sector_size op r log ≡ some (succeeded, log')
      → places track_size log'
        ≡ stretch sector_size r.sectors (r.track * track_size + r.first) 0 (places track_size log)
  unfolding read_write
  read_write-places r log log' inside e = ground (
    arith,
    serve-places r.sectors (2 * r.sectors) r.track r.first 0 (seek r.track ∷ log) log' refl inside,
  )
