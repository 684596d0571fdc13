-- ===== src/Phase1/Devices/Laws.antt =====
-- The indices of devices, and a wait after a wakeup.
use small_os_simulator.Common.{
  ℕ, ◌+◌, ◌%◌, ◌^◌, ◌≤◌, ◌<◌, ◌≡◌, true, false, some, List, [], arith, length, set, get_or-set_self,
  ℤ, pos, length-set,
}
use small_os_simulator.Phase1.Types.{Config, Code, Sched}
use small_os_simulator.Phase1.Sems.{Sem, sem, blank_sem, valid_sid, p_round, v_update}
use small_os_simulator.Phase1.Devices.{
  Units, DeviceType, clock_dev, alarm_dev, disk_dev, term_dev, other_dev, check_type_and_unit,
  Devices, device_sem, done, wait_device, wakeup_device, end_wait,
}

-- The eight semaphores are enough for the units.
pub record FitsSems (units : Units) : Type 0 where
  pub clock : units.clock ≤ 1
  pub alarm : units.alarm ≤ 1
  pub disk : units.disk ≤ 2
  pub term : units.term ≤ 4

-- If the units of each type fit the places kept for them among eight semaphores, `checkTypeAndUnit`
-- gives an index below eight, and the same index only to the same unit of the same type.
pub check_type_and_unit-injective :
    (units : Units) (type type' : DeviceType) (u u' i : ℕ)
    → FitsSems units
    → check_type_and_unit units type (pos u) ≡ (Code.success, some i)
    → check_type_and_unit units type' (pos u') ≡ (Code.success, some i)
    → (i < 8) × (type ≡ type') × (u ≡ u')
unfolding check_type_and_unit
check_type_and_unit-injective units clock_dev clock_dev u u' i f e e' = ground (arith, f.clock)
check_type_and_unit-injective units clock_dev alarm_dev u u' i f e e' = absurd (ground arith)
check_type_and_unit-injective units clock_dev disk_dev u u' i f e e' = absurd (ground arith)
check_type_and_unit-injective units clock_dev term_dev u u' i f e e' = absurd (ground arith)
check_type_and_unit-injective units alarm_dev clock_dev u u' i f e e' = absurd (ground arith)
check_type_and_unit-injective units alarm_dev alarm_dev u u' i f e e' = ground (arith, f.alarm)
check_type_and_unit-injective units alarm_dev disk_dev u u' i f e e' = absurd (ground arith)
check_type_and_unit-injective units alarm_dev term_dev u u' i f e e' = absurd (ground arith)
check_type_and_unit-injective units disk_dev clock_dev u u' i f e e' = absurd (ground arith)
check_type_and_unit-injective units disk_dev alarm_dev u u' i f e e' = absurd (ground arith)
check_type_and_unit-injective units disk_dev disk_dev u u' i f e e' = ground (arith, f.disk)
check_type_and_unit-injective units disk_dev term_dev u u' i f e e' =
    absurd (ground (arith, f.disk))
check_type_and_unit-injective units term_dev clock_dev u u' i f e e' = absurd (ground arith)
check_type_and_unit-injective units term_dev alarm_dev u u' i f e e' = absurd (ground arith)
check_type_and_unit-injective units term_dev disk_dev u u' i f e e' =
    absurd (ground (arith, f.disk))
check_type_and_unit-injective units term_dev term_dev u u' i f e e' = ground (arith, f.term)
check_type_and_unit-injective units type other_dev u u' i f e e' = absurd (ground arith)
check_type_and_unit-injective units other_dev type' u u' i f e e' = absurd (ground arith)

-- For a type and unit that `checkTypeAndUnit` accepts, with a semaphore that is in use, has a value
-- that can grow and has nobody waiting, a `P1_WaitDevice` after a `P1_WakeupDevice` without abort
-- returns at once with the status that was given, changes no process, and leaves the semaphore its
-- old value.
pub wait_device-wakeup_device :
    (c : Config) (units : Units) (type : DeviceType) (unit status : ℤ) (d : Devices) (s : Sched)
    (sems : List Sem) (i sid : ℕ)
    → check_type_and_unit units type unit ≡ (Code.success, some i)
    → i < length d.statuses
    → device_sem d i ≡ pos sid
    → sid < length sems
    → (sem sems sid).is_being_used ≡ true
    → (sem sems sid).head ≡ []
    → (sem sems sid).value + 1 < 2 ^ 32
    → let (code, d', (woken, s', sems')) = wakeup_device c units type unit status false d s sems in
      (code ≡ Code.success)
      × (wait_device c units type unit d' s' sems'
          ≡ done Code.success
              (some status)
              s
              (set sems' sid (record (sem sems' sid) { value = (sem sems sid).value })))
unfolding wait_device wakeup_device end_wait valid_sid p_round v_update
wait_device-wakeup_device c units type unit status d s sems i sid e lt named there used idle small =
    let given : Sem = record (sem sems sid) { value = ((sem sems sid).value + 1) % 2 ^ 32 } in
    ground (
      arith,
      get_or-set_self sems sid given blank_sem there,
      get_or-set_self d.statuses i status (pos 0) lt,
      length-set sems sid given,
    )
