-- ===== src/Phase2/Tests.antt =====
-- The theorems of phase 2 at concrete inputs.
use small_os_simulator.Common.{
  ◌≡◌, ◌≢◌, refl, Bool, true, false, none, some, List, [], ◌∷◌, arith, pos,
}
use small_os_simulator.Phase2.Disk.{
  Span, check_request, check_place, check_sectors, Operation, Request, seek, transfer, serve,
  read_write,
}
use small_os_simulator.Phase2.Disk.Checks.{OnDisk, check_request-OnDisk}
use small_os_simulator.Phase2.Disk.Transfer.{places, read_write_total, read_write-places}
use small_os_simulator.Common.{ℕ, ◌≤◌, zero, suc, Option}
use small_os_simulator.Phase2.Links.{Links, Node, null, insert, remove, free_all}
use small_os_simulator.Phase2.Links.Fifo.{Represents, Removed, insert-Represents, remove-Removed}
use small_os_simulator.Phase2.Links.Free.{Freed, free_all-Freed}
use small_os_simulator.Phase2.Clock.{Sleeper, no_sleeper, sleeper, waits, sleep, wake_due}
use small_os_simulator.Phase2.Clock.Sleep.{wake_due-sleep}
use small_os_simulator.Phase2.Syscalls.{install, clear_handlers, syscall_handler}
use small_os_simulator.Phase2.Syscalls.Table.{latest, answer, syscall_handler-install}
use small_os_simulator.Phase2.Disk.Driver.{Job}
use small_os_simulator.Phase2.Disk.Driver.{driver_loop, abort, tracks}
use small_os_simulator.Phase2.Disk.Stop.{stop_queue, is_drained}
use small_os_simulator.Phase2.Disk.Stop.Empty.{stop_queue-driver_loop}
use small_os_simulator.Common.{if◌then◌else◌, ◌==◌}
use small_os_simulator.Phase1.Types.{Config, Name, same_name}
use small_os_simulator.Phase1.Sems.{Sem, sem, blank_sem, sem_create, sem_scan, sem_claim}
use small_os_simulator.Phase2.Calls.{make, asserted, decimal, digits}
use small_os_simulator.Phase2.Clock.Start.{
  Clock, clock_data, clock_sems, clock_stop, sleeper_name, table_name,
}
use small_os_simulator.Phase2.Clock.Start.Stop.{clock_data-clock_stop}
use small_os_simulator.Phase2.Disk.Driver.Rounds.{serve_all, driver_loop-serve_all}

-- Three sectors from the last sector of track 1 on, on a disk of 3 tracks of 4 sectors.
abbrev span : Span
span = record { track = 1; first = 3; sectors = 3 }

check_request-OnDisk_example : OnDisk 4 3 span
unfolding check_request check_place check_sectors
check_request-OnDisk_example =
    check_request-OnDisk 4 (some 3 ∷ none ∷ []) 0 3 (pos 1) (pos 3) (pos 3) true refl refl

abbrev always : List Request → Bool
always log = true

read_write_total_example : read_write always always 4 512 Operation.read span [] ≢ none
read_write_total_example = read_write_total always always 4 512 Operation.read span [] (omega arith)

abbrev served : List Request
served =
    transfer Operation.read 1 1024
    ∷ transfer Operation.read 0 512
    ∷ seek 2
    ∷ transfer Operation.read 3 0
    ∷ seek 1
    ∷ []

read_write-places_example : places 4 served ≡ (9, 1024) ∷ (8, 512) ∷ (7, 0) ∷ []
unfolding read_write serve
read_write-places_example =
    read_write-places always always 4 512 Operation.read span [] served (omega arith) refl

-- A queue without a node, and one with a node at address 8.
abbrev no_links : Links ℕ
no_links = record { heap = λ p. none; head = null; tail = null }

no_links-Represents : Represents no_links []
no_links-Represents = record {
  cells = [];
  holds = record { distinct = tt; stored = tt; head = refl; tail = refl };
  items_lem = refl;
}

insert-Represents_example :
    (q : Links ℕ) × (insert 8 (some 5) no_links ≡ some (true, q)) × Represents q (5 ∷ [])
insert-Represents_example = insert-Represents 8 5 no_links-Represents (omega arith) refl

abbrev one_node : ℕ → Option (Node ℕ)
one_node zero = none
one_node (suc p) = some (record { info = 5; next = null })

abbrev one_link : Links ℕ
one_link = record { heap = one_node; head = 8; tail = 8 }

one_link-Represents : Represents one_link (5 ∷ [])
one_link-Represents = record {
  cells = (8, 5) ∷ [];
  holds = record {
    distinct = (tt, tt);
    stored = (omega arith, refl, tt);
    head = refl;
    tail = refl;
  };
  items_lem = refl;
}

remove-Removed_example : Removed one_link (5 ∷ []) (remove one_link)
remove-Removed_example = remove-Removed one_link-Represents

free_all-Freed_example :
    (q : Links ℕ) × (free_all 1 one_link ≡ some q)
    × Represents q []
    × Freed one_link.heap one_link-Represents.cells q.heap
free_all-Freed_example = free_all-Freed 1 one_link-Represents (omega arith)

abbrev sleepers : List Sleeper
sleepers = no_sleeper ∷ no_sleeper ∷ []

wake_due-sleep_example :
    (t : List Sleeper) × (sleep (pos 2) 1 (pos 3) sleepers ≡ waits t (pos 0))
    × ((sleeper (wake_due (pos 2000003) t).0 1).is_being_used ≡ false)
wake_due-sleep_example =
    wake_due-sleep 2 1 3 2000003 sleepers (omega arith) (omega arith) (omega arith)

abbrev handlers : List (ℕ × ℕ)
handlers = (1, 7) ∷ (3, 9) ∷ []

syscall_handler-install_example :
    (t : List (Option ℕ)) × (install 3 handlers (clear_handlers (none ∷ none ∷ none ∷ none ∷ []))
      ≡ some t)
    × ((n : ℕ) → n ≤ 3 → syscall_handler t (pos n) ≡ answer (latest n none handlers))
syscall_handler-install_example =
    syscall_handler-install 3 handlers (none ∷ none ∷ none ∷ none ∷ []) refl
      ((omega arith, omega arith), ((omega arith, omega arith), tt))

abbrev no_jobs : Links Job
no_jobs = record { heap = λ p. none; head = null; tail = null }

-- The device takes everything, and reports an error after it.
abbrev never : List Request → Bool
never log = false

abbrev one_job : ℕ → Option (Node Job)
one_job zero = none
one_job (suc p) = some (record { info = abort; next = null })

abbrev aborting : Links Job
aborting = record { heap = one_job; head = 8; tail = 8 }

aborting-Represents : Represents aborting (abort ∷ [])
aborting-Represents = record {
  cells = (8, abort) ∷ [];
  holds = record {
    distinct = (tt, tt);
    stored = (omega arith, refl, tt);
    head = refl;
    tail = refl;
  };
  items_lem = refl;
}

driver_loop-serve_all_example :
    (oks : List Bool) × (ended : Bool) × (left : List Job) × (log : List Request) × (q : Links Job)
    × (serve_all always always 4 512 (abort ∷ []) [] ≡ some (oks, ended, left, log))
    × (driver_loop always always 4 512 1 aborting [] ≡ some (oks, ended, q, log))
    × Represents q left
driver_loop-serve_all_example =
    driver_loop-serve_all always always 4 512 (abort ∷ []) [] (omega arith) (λ r log e. refl)
      aborting-Represents

-- A queue that holds a question for the number of tracks, at address 8.
abbrev pending : Links Job
pending = record {
  heap = λ p. if p == 8 then some (record { info = tracks; next = null }) else none;
  head = 8;
  tail = 8;
}

pending-Represents : Represents pending (tracks ∷ [])
pending-Represents = record {
  cells = (8, tracks) ∷ [];
  holds = record {
    distinct = (tt, tt);
    stored = (omega arith, refl, tt);
    head = refl;
    tail = refl;
  };
  items_lem = refl;
}

stop_queue-driver_loop_example :
    (q' : Links Job) × (q'' : Links Job) × (stop_queue 1 9 pending ≡ some q')
    × (driver_loop always always 4 512 1 q' [] ≡ some (false ∷ [], true, q'', []))
    × (is_drained q'' ≡ true)
stop_queue-driver_loop_example =
    stop_queue-driver_loop always always 4 512 1 9 [] pending-Represents (omega arith) (omega arith)
      refl

abbrev names : Config
names = record { max_proc = 2; max_sem = 3; max_name = 40; min_stack = 10 }

abbrev no_sems : List Sem
no_sems = blank_sem ∷ blank_sem ∷ blank_sem ∷ []

abbrev made : Name → ℕ → Sem
made name value = record { name = name; value = value; is_being_used = true; head = [] }

abbrev started_clock : Clock
started_clock = record {
  table = record no_sleeper { sem_id = pos 0 } ∷ record no_sleeper { sem_id = pos 1 } ∷ [];
  mutex = 2;
}

abbrev clock_made : List Sem
clock_made = made (sleeper_name 0) 0 ∷ made (sleeper_name 1) 0 ∷ made table_name 1 ∷ []

clock_starts : clock_data names sleepers no_sems ≡ some (started_clock, clock_made)
unfolding clock_data clock_sems make asserted sem_create sem_scan sem_claim same_name decimal digits
clock_starts = refl

clock_data-clock_stop_example :
    (l : Clock) × (u : List Sem) × (clock_stop started_clock clock_made ≡ some (l, u))
    × ((i : ℕ) → (sem u i).is_being_used ≡ (sem no_sems i).is_being_used)
clock_data-clock_stop_example = clock_data-clock_stop names sleepers no_sems clock_starts
