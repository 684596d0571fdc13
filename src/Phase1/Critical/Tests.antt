-- ===== src/Phase1/Critical/Tests.antt =====
-- The theorems on guarded sections at concrete inputs.
use small_os_simulator.Common.{
  ℕ, zero, suc, ◌≡◌, ◌≢◌, refl, inl, true, false, [], ◌∷◌, arith, pos, total, find_index,
}
use small_os_simulator.Phase1.Types.{Config, State, Pcb, Sched, blank}
use small_os_simulator.Phase1.Queue.{count}
use small_os_simulator.Phase1.Procs.{proc, get_pid}
use small_os_simulator.Phase1.Procs.Valid.{weight}
use small_os_simulator.Phase1.Contexts.{Contexts}
use small_os_simulator.Phase1.Sems.{valid_sid, p_round}
use small_os_simulator.Phase1.Kernel.Sound.{Waits}
use small_os_simulator.Phase1.Startup.Boot.{childless-Family}
use small_os_simulator.Phase1.Critical.{
  Place, outside, blocked, woken, inside, Users, Uses, here, next, tries, upped, put,
}
use small_os_simulator.Phase1.Kernel.{Kernel}
use small_os_simulator.Phase1.Critical.Safety.{Guarded, guarded, mutual_exclusion}

abbrev config : Config
config = record { max_proc = 3; max_sem = 1; max_name = 5; min_stack = 10 }

abbrev runner : Pcb
runner = record blank { is_being_used = true; state = State.running; priority = 2 }

abbrev waits : Pcb
waits = record runner { state = State.blocked }

-- Process 0 runs, and the others are blocked on semaphore 0.
abbrev hub : Sched
hub = record {
  procs = runner ∷ waits ∷ waits ∷ [];
  queue = record { pid = 0; priority = 2 } ∷ [];
  is_first = false;
}

hub_listed : (pid : ℕ) → count pid hub.queue ≡ weight (proc hub pid)
unfolding count
hub_listed zero = refl
hub_listed (suc zero) = refl
hub_listed (suc (suc zero)) = refl
hub_listed (suc (suc (suc n))) = ground arith

hub_childless : (i : ℕ) → (proc hub i).quit_children ≡ []
hub_childless zero = refl
hub_childless (suc zero) = refl
hub_childless (suc (suc zero)) = refl
hub_childless (suc (suc (suc i))) = refl

abbrev contexts : Contexts
contexts = record { slots = []; cid = pos 0; calls = [] }

-- The section is free.
abbrev free : Users
free = record {
  kernel = record {
    sched = hub;
    contexts = contexts;
    sems = record { name = 83 ∷ []; value = 1; is_being_used = true; head = [] } ∷ [];
  };
  place = λ q. outside;
}

free-Waits : Waits hub free.kernel.sems
free-Waits zero used = (tt, tt)
free-Waits (suc i) used = absurd cc

free-Guarded : Guarded config 0 1 free
unfolding total
free-Guarded =
    guarded
      (record {
        valid = record { sized = refl; listed = hub_listed; priced = (refl, tt) };
        family = childless-Family hub hub_childless;
        waits = free-Waits;
      })
      (record {
        used = refl;
        balance = refl;
        queued = tt;
        parked = λ r e. cc;
        awake = λ ne. absurd (ne refl);
      })

hub_runs : get_pid hub ≡ pos 0
unfolding get_pid find_index
hub_runs = refl

-- Process 0 has come in.
abbrev entered : Users
entered = record {
  kernel = record free.kernel {
    sems = record { name = 83 ∷ []; value = 0; is_being_used = true; head = [] } ∷ [];
  };
  place = put free.place 0 inside;
}

enters : Uses config 7 0 free entered
unfolding valid_sid p_round
enters = next here (tries 0 refl (λ e. cc) (λ e. hub_runs) (inl refl) refl)

mutual_exclusion_example : entered.place 1 ≢ inside
mutual_exclusion_example =
    mutual_exclusion 0 1 free-Guarded enters (omega arith) (omega arith) (λ e. omega (arith, e))
      refl

-- Process 0 is inside, and the others wait.
abbrev crowd_place : ℕ → Place
crowd_place zero = inside
crowd_place (suc zero) = blocked
crowd_place (suc (suc zero)) = blocked
crowd_place (suc (suc (suc n))) = outside

abbrev crowd : Users
crowd = record {
  kernel = record free.kernel {
    sems =
        record { name = 83 ∷ []; value = 0; is_being_used = true; head = pos 1 ∷ pos 2 ∷ [] } ∷ [];
  };
  place = crowd_place;
}

-- Process 0 has gone and woken process 1; process 2 still waits.
abbrev left : Users
left = record {
  kernel = upped config 0 crowd.kernel;
  place = put (put crowd_place 0 outside) 1 woken;
}
