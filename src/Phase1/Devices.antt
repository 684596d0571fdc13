-- ===== src/Phase1/Devices.antt =====
-- Devices of phase1d.c: `checkTypeAndUnit`, `P1_WaitDevice` and `P1_WakeupDevice`, as they stand with
-- interrupts off. The mode check and the interrupt switches are not in the model.
pub mod Laws
mod Tests
use small_os_simulator.Common.{
  ℕ, suc, ◌+◌, Bool, true, false, Option, none, some, List, [], ◌∷◌, if◌then◌else◌, get_or, set, ℤ,
  pos, index,
}
use small_os_simulator.Phase1.Types.{Config, Code, Sched}
use small_os_simulator.Phase1.Sems.{Sem, valid_sid, p_round, v_update}

-- USLOSS_CLOCK_UNITS, USLOSS_ALARM_UNITS, USLOSS_DISK_UNITS and USLOSS_TERM_UNITS, which usloss.h
-- gives.
pub record Units : Type 0 where
  pub clock : ℕ
  pub alarm : ℕ
  pub disk : ℕ
  pub term : ℕ

-- The types of devices that the code knows, and any other `int`.
pub data DeviceType : Type 0 where
  clock_dev alarm_dev disk_dev term_dev other_dev : DeviceType

-- `unit >= units || unit < 0`, and the index of the semaphore if that fails.
abbrev pub unit_of : ℕ → ℤ → (ℕ → ℕ) → Code × Option ℕ
unit_of units unit sem_index = elim (index units unit) [
  | none ↦ (Code.invalid_unit, none)
  | some u ↦ (Code.success, some (sem_index u))
]

-- `checkTypeAndUnit`: the code, and what goes through `semIndex`.
unfoldable pub check_type_and_unit : Units → DeviceType → ℤ → Code × Option ℕ
check_type_and_unit units clock_dev unit = unit_of units.clock unit (λ u. 0)
check_type_and_unit units alarm_dev unit = unit_of units.alarm unit (λ u. 1)
check_type_and_unit units disk_dev unit = unit_of units.disk unit (λ u. 2 + u)
check_type_and_unit units term_dev unit = unit_of units.term unit (λ u. 4 + u)
check_type_and_unit units other_dev unit = (Code.invalid_type, none)

-- `devSems`, `devStatus` and `okToAbort`.
pub record Devices : Type 0 where
  pub sems : List ℤ
  pub statuses : List ℤ
  pub ok_to_abort : Bool

abbrev pub device_sem : Devices → ℕ → ℤ
device_sem d i = get_or d.sems i (pos 0)

-- What a caller of `P1_WaitDevice` sees: a refusal, one more round of `P1_P` to wait for, or the end,
-- with the code and what goes through `status`. The code of `P1_P` is not looked at.
pub data Waiting : Type 0 where
  refused : Code → Waiting
  blocked : Sched → List Sem → Waiting
  done : Code → Option ℤ → Sched → List Sem → Waiting

-- The end of `P1_WaitDevice`, with what a round of `P1_P` gave.
unfoldable pub end_wait : Devices → ℕ → Bool × Sched × List Sem → Waiting
end_wait d i (false, s, sems) = blocked s sems
end_wait d i (true, s, sems) =
    if d.ok_to_abort
    then done Code.wait_aborted none s sems
    else done Code.success (some (get_or d.statuses i (pos 0))) s sems

-- `P1_WaitDevice`, with the first round of its `P1_P`.
unfoldable pub wait_device : Config → Units → DeviceType → ℤ → Devices → Sched → List Sem → Waiting
unfolding check_type_and_unit end_wait
wait_device c units type unit d s sems =
    let (code, found) = check_type_and_unit units type unit in
    elim found [
      | none ↦ refused code
      | some i ↦ elim (valid_sid (device_sem d i) sems) [
        | none ↦ end_wait d i (true, s, sems)
        | some sid ↦ end_wait d i (p_round c sid s sems)
      ]
    ]

-- `P1_WakeupDevice`: the code, the devices, and what its `P1_V` did up to its dispatch (false if it did
-- not wake a process). The code of `P1_V` is not looked at.
unfoldable pub wakeup_device :
    Config
    → Units
    → DeviceType
    → ℤ
    → ℤ
    → Bool
    → Devices
    → Sched
    → List Sem
    → Code × Devices × (Bool × Sched × List Sem)
unfolding check_type_and_unit
wakeup_device c units type unit status abort d s sems =
    let (code, found) = check_type_and_unit units type unit in
    elim found [
      | none ↦ (code, d, (false, s, sems))
      | some i ↦
          let told = record d { statuses = set d.statuses i status; ok_to_abort = abort } in
          elim (valid_sid (device_sem d i) sems) [
            | none ↦ (code, told, (false, s, sems))
            | some sid ↦ (code, told, v_update c sid s sems)
          ]
    ]
