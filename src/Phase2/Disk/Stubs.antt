-- ===== src/Phase2/Disk/Stubs.antt =====
-- `P2_DiskRead` and `P2_DiskWrite` of phase2c.c and the stubs of the system calls for disks, each with the
-- round of the driver that serves it. The mode checks are not in the model.
use small_os_simulator.Common.{
  ℕ, Bool, true, false, not, Option, none, some, List, ℤ, pos, eqb_ℤ, index, get_or,
}
use small_os_simulator.Phase2.Links.{Ptr, Links}
use small_os_simulator.Phase2.Disk.{Code, Operation, Request}
use small_os_simulator.Phase2.Disk.Driver.{Job, disk_request, disk_size}
use small_os_simulator.Phase2.Stubs.{Sysargs}

-- `sectors`, `track`, `first`, `unit` and whether the buffer is not NULL, as the record of the call has
-- them, go to `P2DiskReaderWriterHelper`; `number` gives the number of a code.
module _ (number : Code → ℤ) (accepts waits : List Request → Bool) (track_size sector_size : ℕ)
    (fresh : Ptr) (disks : List (Option ℕ)) where
  abbrev pub not_null : ℤ → Bool
  not_null p = not (eqb_ℤ p (pos 0))

  -- `P2_DiskRead`
  abbrev pub disk_read :
      ℤ → ℤ → ℤ → ℤ → Bool → Links Job → List Request → Option (Code × Links Job × List Request)
  disk_read unit track first sectors given q log =
      disk_request accepts waits track_size sector_size fresh Operation.read disks unit track first
        sectors given q log

  -- `P2_DiskWrite`
  abbrev pub disk_write :
      ℤ → ℤ → ℤ → ℤ → Bool → Links Job → List Request → Option (Code × Links Job × List Request)
  disk_write unit track first sectors given q log =
      disk_request accepts waits track_size sector_size fresh Operation.write disks unit track first
        sectors given q log

  -- The code in `arg4`.
  abbrev pub replied :
      Sysargs
      → Option (Code × Links Job × List Request)
      → Option (Sysargs × Links Job × List Request)
  replied a r = elim r [
    | none ↦ none
    | some (code, q, log) ↦ some (record a { arg4 = number code }, q, log)
  ]

  -- `DiskReadStub`
  unfoldable pub disk_read_stub :
      Sysargs → Links Job → List Request → Option (Sysargs × Links Job × List Request)
  disk_read_stub a q log = replied a (disk_read a.arg5 a.arg3 a.arg4 a.arg2 (not_null a.arg1) q log)

  -- `DiskWriteStub`
  unfoldable pub disk_write_stub :
      Sysargs → Links Job → List Request → Option (Sysargs × Links Job × List Request)
  disk_write_stub a q log =
      replied a (disk_write a.arg5 a.arg3 a.arg4 a.arg2 (not_null a.arg1) q log)

  -- The guard of `P2_DiskSize` on the unit.
  abbrev pub has_disk : ℤ → Bool
  has_disk unit = elim (index 2 unit) as (λ _. Bool) [
    | none ↦ false
    | some u ↦ elim (get_or disks u none) [ none ↦ false | some n ↦ true ]
  ]

  -- `DiskSizeStub`: `sector` and `track` are what its locals hold before the call, and `disk` what the
  -- third holds after it.
  unfoldable pub disk_size_stub :
      ℤ → ℤ → ℤ → Sysargs → Links Job → List Request → Option (Sysargs × Links Job × List Request)
  disk_size_stub sector track disk a q log =
      replied
        (record a {
          arg1 = elim (has_disk a.arg1) [ true ↦ pos sector_size | false ↦ sector ];
          arg2 = elim (has_disk a.arg1) [ true ↦ pos track_size | false ↦ track ];
          arg3 = disk;
        })
        (disk_size accepts waits track_size sector_size fresh disks a.arg1 true q log)
