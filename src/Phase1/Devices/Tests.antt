-- ===== src/Phase1/Devices/Tests.antt =====
-- The theorems on devices at concrete inputs.
use small_os_simulator.Common.{ℕ, ◌≡◌, refl, true, false, some, List, [], ◌∷◌, arith, pos, set}
use small_os_simulator.Phase1.Types.{Config, Code, Sched}
use small_os_simulator.Phase1.Sems.{Sem, sem}
use small_os_simulator.Phase1.Devices.{
  Units, disk_dev, Devices, check_type_and_unit, wait_device, wakeup_device, done,
}
use small_os_simulator.Phase1.Devices.Laws.{FitsSems, wait_device-wakeup_device}

abbrev units : Units
units = record { clock = 1; alarm = 1; disk = 2; term = 4 }

units-FitsSems : FitsSems units
units-FitsSems = record {
  clock = omega arith;
  alarm = omega arith;
  disk = omega arith;
  term = omega arith;
}

abbrev second : ℕ
second = 1

abbrev config : Config
config = record { max_proc = 3; max_sem = 2; max_name = 5; min_stack = 10 }

abbrev idle_sched : Sched
idle_sched = record { procs = []; queue = []; is_first = false }

abbrev sems : List Sem
sems =
    record { name = 65 ∷ []; value = 0; is_being_used = true; head = [] }
    ∷ record { name = 66 ∷ []; value = 2; is_being_used = true; head = [] }
    ∷ []

abbrev devices : Devices
devices = record {
  sems = pos 0 ∷ pos 0 ∷ pos 0 ∷ pos 1 ∷ [];
  statuses = pos 0 ∷ pos 0 ∷ pos 0 ∷ pos 0 ∷ [];
  ok_to_abort = false;
}

wait_device-wakeup_device_example :
    let (code, d', (woken, s', sems')) =
      wakeup_device config units disk_dev (pos 1) (pos 7) false devices idle_sched sems in
    (code ≡ Code.success)
    × (wait_device config units disk_dev (pos 1) d' s' sems'
        ≡ done Code.success
            (some (pos 7))
            idle_sched
            (set sems' 1 (record (sem sems' 1) { value = 2 })))
unfolding check_type_and_unit
wait_device-wakeup_device_example =
    wait_device-wakeup_device config units disk_dev (pos 1) (pos 7) devices idle_sched sems 3 1 refl
      (omega arith) refl (omega arith) refl refl (omega arith)
