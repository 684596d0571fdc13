-- ===== src/Phase2/Disk/Driver.antt =====
-- The driver of a disk in phase2c.c: `DiskDriverWait`, a round of the loop of `DiskDriver`, and
-- `P2DiskReaderWriterHelper` and `P2_DiskSize` with the round that serves them. A caller runs alone
-- with the driver of its unit; its semaphore is not in the model.
pub mod Serving
pub mod Rounds
use small_os_simulator.Common.{
  ℕ, zero, suc, Bool, true, false, ◌&&◌, Option, none, some, List, [], ◌∷◌, if◌then◌else◌, get_or,
  ℤ, index,
}
use small_os_simulator.Phase2.Links.{Ptr, Links, insert, remove}
use small_os_simulator.Phase2.Disk.{
  Code, Span, check_request, Operation, Request, ask_tracks, Ended, succeeded, device_error,
  assert_failed, read_write,
}

-- What `P1_WaitDevice` gives: that the wait was aborted, or the status of the device.
pub data Answer : Type 0 where
  aborted ready busy failed : Answer

-- `DiskDriverWait` on what `P1_WaitDevice` gives in turn, with a sleep after each busy: whether it
-- returns P1_SUCCESS. None where the answers run out.
unfoldable pub driver_wait : List Answer → Option Bool
driver_wait [] = none
driver_wait (aborted ∷ answers) = some true
driver_wait (ready ∷ answers) = some true
driver_wait (busy ∷ answers) = driver_wait answers
driver_wait (failed ∷ answers) = some false

-- `diskRequestInfo`: a transfer, a question for the number of tracks, or P2C_ABORT_OPERATION.
pub data Job : Type 0 where
  transfers : Operation → Span → Job
  tracks abort : Job

-- What a round of `DiskDriver` does.
pub data Driven : Type 0 where
  -- nothing was queued, and the driver ends
  queue_error : Driven
  -- whether `returnVal` is P1_SUCCESS, whether the driver ends, the queue and the log
  served : Bool → Bool → Links Job → List Request → Driven

abbrev pub ends : Job → Bool
ends abort = true
ends job = false

-- `returnVal` of a transfer, as whether it is P1_SUCCESS; none where an assertion has failed.
unfoldable pub returned : Option (Ended × List Request) → Option (Bool × List Request)
returned none = none
returned (some (succeeded, log)) = some (true, log)
returned (some (device_error, log)) = some (false, log)
returned (some (assert_failed, log)) = none

-- `accepts` tells whether `USLOSS_DeviceOutput` takes a request, and `waits` what `DiskDriverWait`
-- returns after it.
module _ (accepts waits : List Request → Bool) (track_size sector_size : ℕ) where
  -- What the driver does for a job: `returnVal` and the log. None where an assertion fails or the fuel
  -- ran out.
  unfoldable pub serve_job : Job → List Request → Option (Bool × List Request)
  unfolding returned
  serve_job (transfers op r) log =
      returned (read_write accepts waits track_size sector_size op r log)
  serve_job tracks log =
      some (accepts (ask_tracks ∷ log) && waits (ask_tracks ∷ log), ask_tracks ∷ log)
  serve_job abort log = some (false, log)

  -- A round from the result of `diskRequestQueueRemove` on.
  unfoldable pub drive : List Request → Option (Bool × Option Job × Links Job) → Option Driven
  unfolding serve_job
  drive log (some (true, some job, q)) = elim (serve_job job log) [
    | none ↦ none
    | some (ok, log') ↦ some (served ok (ends job) q log')
  ]
  drive log (some (true, none, q)) = none
  drive log (some (false, _, q)) = some queue_error
  drive log none = none

  -- One round of the loop of `DiskDriver`.
  unfoldable pub driver_round : Links Job → List Request → Option Driven
  unfolding drive
  driver_round q log = drive log (remove q)

  -- Insert the job and wait for the driver: `returnVal`, the queue and the log. None where the caller
  -- is not woken.
  unfoldable pub ask :
      Ptr → Job → Links Job → List Request → Option (Bool × Links Job × List Request)
  unfolding driver_round
  ask fresh job q log = elim (insert fresh (some job) q) [
    | none ↦ none
    | some (_, q') ↦ elim (driver_round q' log) [
      | none ↦ none
      | some queue_error ↦ none
      | some (served ok stops q'' log') ↦ some (ok, q'', log')
    ]
  ]

  -- `P2DiskReaderWriterHelper` from the result of its checks on.
  unfoldable pub request :
      Ptr
      → Operation
      → Links Job
      → List Request
      → Code × Option Span
      → Option (Code × Links Job × List Request)
  unfolding ask
  request fresh op q log (code, none) = some (code, q, log)
  request fresh op q log (code, some r) = elim (ask fresh (transfers op r) q log) [
    | none ↦ none
    | some (ok, q', log') ↦ some (Code.success, q', log')
  ]

  -- `P2DiskReaderWriterHelper`, with the address that `malloc` gives to the node of the queue.
  unfoldable pub disk_request :
      Ptr
      → Operation
      → List (Option ℕ)
      → ℤ
      → ℤ
      → ℤ
      → ℤ
      → Bool
      → Links Job
      → List Request
      → Option (Code × Links Job × List Request)
  unfolding request
  disk_request fresh op disks unit track first sectors given q log =
      request fresh op q log (check_request track_size disks unit track first sectors given)

  -- `P2_DiskSize`, with whether none of the three pointers is NULL. What goes through them is not in
  -- the model.
  unfoldable pub disk_size :
      Ptr
      → List (Option ℕ)
      → ℤ
      → Bool
      → Links Job
      → List Request
      → Option (Code × Links Job × List Request)
  unfolding ask
  disk_size fresh disks unit given q log =
      elim (elim (index 2 unit) as (λ _. Option ℕ) [ none ↦ none | some u ↦ get_or disks u none ]) [
        | none ↦ some (Code.invalid_unit, q, log)
        | some n ↦
            if given
            then elim (ask fresh tracks q log) [
              | none ↦ none
              | some (ok, q', log') ↦
                  some (if ok then Code.success else Code.invalid_unit, q', log')
            ]
            else some (Code.null_address, q, log)
      ]

  -- The loop of `DiskDriver` for as many rounds as the semaphore of the queue lets it go: what went
  -- into `returnVal` in turn, whether the driver has ended, the queue and the log.
  unfoldable pub driver_loop :
      ℕ → Links Job → List Request → Option (List Bool × Bool × Links Job × List Request)
  unfolding driver_round
  driver_loop zero q log = some ([], false, q, log)
  driver_loop (suc rounds) q log = elim (driver_round q log) [
    | none ↦ none
    | some queue_error ↦ some ([], true, q, log)
    | some (served ok true q' log') ↦ some (ok ∷ [], true, q', log')
    | some (served ok false q' log') ↦ elim (driver_loop rounds q' log') [
      | none ↦ none
      | some (oks, ended, q'', log'') ↦ some (ok ∷ oks, ended, q'', log'')
    ]
  ]
