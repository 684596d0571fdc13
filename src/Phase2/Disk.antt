-- ===== src/Phase2/Disk.antt =====
-- Disk requests of phase2c.c: the checks of `P2DiskReaderWriterHelper` and the loop of
-- `DiskDriverReadWriteHelper` that serves a request. What the driver asks of USLOSS is a log, newest
-- first, and what `DiskDriverWait` returns after it is the device's answer, a parameter. `Driver` puts
-- the two together over the queue between them.
pub mod Checks
pub mod Transfer
pub mod Driver
pub mod Stop
pub mod Start
pub mod Stubs
use small_os_simulator.Common.{
  ℕ, zero, suc, ◌+◌, ◌-◌, ◌*◌, Bool, true, false, Option, none, some, List, [], ◌∷◌, ltb, leb,
  if◌then◌else◌, get_or, ℤ, pos, negsuc, index, eqb_ℤ,
}

-- The return codes of the requests by name.
pub data Code : Type 0 where
  success invalid_unit null_address invalid_first invalid_track invalid_sectors : Code

-- The track, the first sector in it and the number of sectors of a request that passed the checks.
pub record Span : Type 0 where
  pub track : ℕ
  pub first : ℕ
  pub sectors : ℕ

-- The last check, on the number of sectors, with the others passed.
unfoldable pub check_sectors : ℕ → ℕ → ℕ → ℕ → ℤ → Code × Option Span
check_sectors track_size disk track first (pos n) =
    if ltb (track_size * (disk - track - 1) + (track_size - first)) n
    then (Code.invalid_sectors, none)
    else (Code.success, some (record { track = track; first = first; sectors = n }))
check_sectors track_size disk track first (negsuc n) = (Code.invalid_sectors, none)

-- The checks on first and track, for a disk of `disk` tracks.
unfoldable pub check_place : ℕ → ℕ → ℤ → ℤ → ℤ → Code × Option Span
unfolding check_sectors
check_place track_size disk track first sectors = elim (index track_size first) [
  | none ↦ (Code.invalid_first, none)
  | some f ↦ elim (index disk track) [
    | none ↦ (Code.invalid_track, none)
    | some t ↦ check_sectors track_size disk t f sectors
  ]
]

-- The checks of `P2DiskReaderWriterHelper`, with whether `buffer` is not NULL. `disks` holds the two
-- entries of `diskSize`, none for -1. The span is what goes to the driver, none where nothing does.
unfoldable pub check_request : ℕ → List (Option ℕ) → ℤ → ℤ → ℤ → ℤ → Bool → Code × Option Span
unfolding check_place
check_request track_size disks unit track first sectors given =
    if eqb_ℤ sectors (pos 0) then (Code.success, none) else elim (index 2 unit) [
      | none ↦ (Code.invalid_unit, none)
      | some u ↦ elim (get_or disks u none) [
        | none ↦ (Code.invalid_unit, none)
        | some disk ↦
            if given
            then check_place track_size disk track first sectors
            else (Code.null_address, none)
      ]
    ]

-- `USLOSS_DISK_READ` and `USLOSS_DISK_WRITE`
pub data Operation : Type 0 where
  read write : Operation

-- `USLOSS_DISK_SEEK` of a track, `USLOSS_DISK_TRACKS`, or a transfer of a sector to or from this
-- offset of the buffer.
pub data Request : Type 0 where
  ask_tracks : Request
  seek : ℕ → Request
  transfer : Operation → ℕ → ℕ → Request

-- How `DiskDriverReadWriteHelper` ends: it returns P1_SUCCESS, or the error of `DiskDriverWait`, or
-- the assertion that `USLOSS_DeviceOutput` takes a request fails.
pub data Ended : Type 0 where
  succeeded device_error assert_failed : Ended

-- `accepts` tells of the requests made so far whether `USLOSS_DeviceOutput` takes the last one, and
-- `waits` whether `DiskDriverWait` returns P1_SUCCESS after it.
module _ (accepts waits : List Request → Bool) (track_size sector_size : ℕ) (op : Operation) where
  -- The loop of `DiskDriverReadWriteHelper` with `left` sectors to go. None means that the fuel ran out.
  unfoldable pub serve : ℕ → ℕ → ℕ → ℕ → ℕ → List Request → Option (Ended × List Request)
  serve zero fuel track sector offset log = some (succeeded, log)
  serve (suc left) zero track sector offset log = none
  serve (suc left) (suc fuel) track sector offset log =
      let sought = seek (suc track) ∷ log in
      let moved = transfer op sector offset ∷ log in
      let on_next_track = serve (suc left) fuel (suc track) 0 offset sought in
      let on_next_sector = serve left fuel track (suc sector) (offset + sector_size) moved in
      if leb track_size sector
      then if accepts sought
        then if waits sought then on_next_track else some (device_error, sought)
        else some (assert_failed, sought)
      else if accepts moved
      then if waits moved then on_next_sector else some (device_error, moved)
      else some (assert_failed, moved)

  -- `DiskDriverReadWriteHelper`
  unfoldable pub read_write : Span → List Request → Option (Ended × List Request)
  unfolding serve
  read_write r log =
      let sought = seek r.track ∷ log in
      if accepts sought
      then if waits sought
        then serve r.sectors (2 * r.sectors) r.track r.first 0 sought
        else some (device_error, sought)
      else some (assert_failed, sought)
