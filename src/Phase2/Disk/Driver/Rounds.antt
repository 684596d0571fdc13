-- ===== src/Phase2/Disk/Driver/Rounds.antt =====
-- The loop of the driver against the list of the requests that are queued.
use small_os_simulator.Common.{
  ℕ, suc, ◌≡◌, ◌≢◌, refl, Bool, true, false, Option, none, some, List, [], ◌∷◌, length,
  if◌then◌else◌, Option-cases, Bool-cases, inl, inr, ◌<◌,
}
use small_os_simulator.Phase2.Links.{Links, remove}
use small_os_simulator.Phase2.Links.Fifo.{Represents, first-Removed, remove-Removed}
use small_os_simulator.Phase2.Disk.{
  Span, Operation, Request, succeeded, device_error, assert_failed, read_write,
}
use small_os_simulator.Phase2.Disk.Transfer.{Takes, read_write_total, read_write_runs}
use small_os_simulator.Phase2.Disk.Driver.{
  Job, returned, transfers, tracks, abort, served, serve_job, ends, drive, driver_round,
  driver_loop,
}

pub returned_lem :
    (ok : Bool) (log : List Request)
    → returned (some (if ok then succeeded else device_error, log)) ≡ some (ok, log)
unfolding returned
returned_lem true log = refl
returned_lem false log = refl

module _ (accepts waits : List Request → Bool) (track_size sector_size : ℕ) where
  -- The jobs of a list served one after the other, up to the first abort: the results, whether there was
  -- an abort, the jobs behind it, and the log.
  abbrev pub serve_all :
      List Job → List Request → Option (List Bool × Bool × List Job × List Request)
  serve_all [] log = some ([], false, [], log)
  serve_all (job ∷ jobs) log = elim (serve_job accepts waits track_size sector_size job log) [
    | none ↦ none
    | some (ok, log') ↦
        let rest = serve_all jobs log' in
        if ends job then some (ok ∷ [], true, jobs, log') else elim rest [
          | none ↦ none
          | some (oks, ended, left, log'') ↦ some (ok ∷ oks, ended, left, log'')
        ]
  ]

  round_serves :
      (job : Job) (log log' : List Request) (q : Links Job) {ok : Bool} {q' : Links Job}
      → remove q ≡ some (true, some job, q')
      → serve_job accepts waits track_size sector_size job log ≡ some (ok, log')
      → driver_round accepts waits track_size sector_size q log
        ≡ some (served ok (ends job) q' log')
  unfolding driver_round drive
  round_serves job log log' q removed e = rw (removed, driver_round, e, drive) refl

  -- A transfer that the device takes returns.
  pub read_write_ok :
      (op : Operation) (r : Span) (log : List Request)
      → 0 < track_size
      → Takes accepts
      → (ok : Bool) × (log' : List Request) × (read_write accepts waits track_size sector_size op r
            log
          ≡ some (if ok then succeeded else device_error, log'))
  read_write_ok op r log positive takes =
      elim (Option-cases (read_write accepts waits track_size sector_size op r log)) [
        | inl e ↦ absurd (read_write_total accepts waits track_size sector_size op r log positive e)
        | inr ((succeeded, log'), e) ↦ (true, log', e)
        | inr ((device_error, log'), e) ↦ (false, log', e)
        | inr ((assert_failed, log'), e) ↦
            absurd (read_write_runs accepts waits track_size sector_size op r log log' takes e)
      ]

  serve_job_total :
      (job : Job) (log : List Request)
      → 0 < track_size
      → Takes accepts
      → serve_job accepts waits track_size sector_size job log ≢ none
  unfolding serve_job
  serve_job_total (transfers op r) log positive takes =
      let (ok, log', e) = read_write_ok op r log positive takes in rw (e, returned_lem ok log') cc
  serve_job_total tracks log positive takes = cc
  serve_job_total abort log positive takes = cc

  loop_ends :
      (n : ℕ) (log : List Request) (q : Links Job) {q' : Links Job} {ok : Bool}
      {log' : List Request}
      → driver_round accepts waits track_size sector_size q log ≡ some (served ok true q' log')
      → driver_loop accepts waits track_size sector_size (suc n) q log
        ≡ some (ok ∷ [], true, q', log')
  unfolding driver_loop
  loop_ends n log q e = rw (driver_loop, e) refl

  loop_goes_on :
      (n : ℕ) (log : List Request) (q : Links Job) {q' q'' : Links Job} {ok ended : Bool}
      {oks : List Bool} {log' log'' : List Request}
      → driver_round accepts waits track_size sector_size q log ≡ some (served ok false q' log')
      → driver_loop accepts waits track_size sector_size n q' log' ≡ some (oks, ended, q'', log'')
      → driver_loop accepts waits track_size sector_size (suc n) q log
        ≡ some (ok ∷ oks, ended, q'', log'')
  unfolding driver_loop
  loop_goes_on n log q e rest = rw (driver_loop, e, rest) refl

  -- One round of the driver takes the abort.
  pub abort_ends :
      (log : List Request) {q : Links Job}
      → Represents q (abort ∷ [])
      → (q' : Links Job) × (driver_loop accepts waits track_size sector_size 1 q log
          ≡ some (false ∷ [], true, q', log))
        × Represents q' []
  unfolding serve_job
  abort_ends log {q} r =
      let (q', removed, r') = first-Removed (remove-Removed r) refl in
      (q', loop_ends 0 log q (round_serves abort log log q removed refl), r')

  -- On a disk whose tracks have sectors, where `USLOSS_DeviceOutput` takes every seek and every
  -- transfer, with a queue of linked nodes that represents a list of requests, the loop of
  -- `DiskDriver` with as many rounds as there are requests ends, meets no failed assertion and
  -- follows no dangling pointer. It gives the same return values and the same log as serving the
  -- requests of the list one after the other up to the first abort, it has ended exactly when
  -- there was an abort, and the queue represents the requests behind that.
  pub driver_loop-serve_all :
      (items : List Job) (log : List Request) {q : Links Job}
      → 0 < track_size
      → Takes accepts
      → Represents q items
      → (oks : List Bool) × (ended : Bool) × (left : List Job) × (log' : List Request) × (q' : Links
          Job)
        × (serve_all items log ≡ some (oks, ended, left, log'))
        × (driver_loop accepts waits track_size sector_size (length items) q log
            ≡ some (oks, ended, q', log'))
        × Represents q' left
  unfolding driver_loop
  driver_loop-serve_all [] log {q} positive takes r = ([], false, [], log, q, refl, refl, r)
  driver_loop-serve_all (job ∷ jobs) log {q} positive takes r =
      elim (Option-cases (serve_job accepts waits track_size sector_size job log)) [
        | inl e ↦ absurd (serve_job_total job log positive takes e)
        | inr ((ok, log'), e) ↦
            let (q', removed, r') = first-Removed (remove-Removed r) refl in
            let round = round_serves job log log' q removed e in
            elim (Bool-cases (ends job)) [
              | inl last ↦ (
                ok ∷ [],
                true,
                jobs,
                log',
                q',
                rw (serve_all, e, last) refl,
                loop_ends (length jobs) log q (rw last at round),
                r',
              )
              | inr more ↦
                  let (oks, ended, left, log'', q'', all, loop, r'') =
                    driver_loop-serve_all jobs log' positive takes r' in
                  (
                    ok ∷ oks,
                    ended,
                    left,
                    log'',
                    q'',
                    rw (serve_all, e, more, all) refl,
                    loop_goes_on (length jobs) log q (rw more at round) loop,
                    r'',
                  )
            ]
      ]
