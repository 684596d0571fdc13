-- ===== src/Phase1/Join.antt =====
-- `P1_Join` and `DeviceHandler` of phase1d.c. A round of the loop of `P1_Join` ends it, or blocks the
-- caller and dispatches; the clock interrupt counts ticks. The mode check and the interrupt switches
-- are not in the model.
pub mod Status
pub mod Ticks
use small_os_simulator.Common.{
  ℕ, ◌+◌, ◌%◌, ◌==◌, Bool, true, false, Option, none, some, List, if◌then◌else◌, ℤ, pos, minus_one,
  ltb,
}
use small_os_simulator.Phase1.Types.{Config, Code, State, Sched}
use small_os_simulator.Phase1.Procs.{get_pid, set_state, dispatch, get_proc_info}
use small_os_simulator.Phase1.Contexts.{Contexts}
use small_os_simulator.Phase1.Processes.{get_child_status}
use small_os_simulator.Phase1.Sems.{Sem}
use small_os_simulator.Phase1.Devices.{
  Units, DeviceType, clock_dev, alarm_dev, disk_dev, term_dev, other_dev, Devices, wakeup_device,
}

-- A round of the loop of `P1_Join`.
pub data Joining : Type 0 where
  -- the code, what goes through `pid` and `status`, and the statics
  joined : Code → Option (ℕ × ℤ) → Sched → Contexts → Joining
  -- the caller joins, and the process that `P1Dispatch(0)` chose runs; none where it halts
  waits : Option Sched → Contexts → Joining
  -- the loop goes on with nothing changed
  again : Joining

-- The round from the result of `P1GetChildStatus` on.
unfoldable pub join_with : Config → Code × Option (ℕ × ℤ) × Sched × Contexts → Joining
join_with c (Code.success, child, s, x) = joined Code.success child s x
join_with c (Code.no_children, child, s, x) = joined Code.no_children child s x
join_with c (Code.invalid_tag, child, s, x) = joined Code.invalid_tag child s x
join_with c (Code.no_quit, child, s, x) =
    waits (dispatch c false (set_state c (get_pid s) State.joining minus_one s).1) x
join_with c _ = again

unfoldable pub join_round : Config → ℤ → Sched → Contexts → Joining
unfolding join_with
join_round c tag s x = join_with c (get_child_status tag s x)

-- The clock interrupt: the ticks that are kept, whether the clock device is woken, and whether
-- `P1Dispatch(TRUE)` is called.
unfoldable pub tick : ℕ → ℕ × Bool × Bool
tick ticks = let now = ticks + 1 in ((if now == 20 then 0 else now), now % 5 == 0, now % 4 == 0)

-- What `DeviceHandler` leaves: the ticks, the devices, the semaphores and the scheduler, none where
-- `P1Dispatch(TRUE)` halts.
pub record Handled : Type 0 where
  pub ticks : ℕ
  pub devices : Devices
  pub sems : List Sem
  pub sched : Option Sched

-- `P1_WakeupDevice` as the handler calls it, with the status that `USLOSS_DeviceInput` gave, and the
-- dispatch of its `P1_V`; nothing else runs before the handler goes on.
unfoldable pub wake_device :
    Config → Units → DeviceType → ℤ → ℤ → ℕ → Devices → Sched → List Sem → Handled
wake_device c units type unit status ticks d s sems =
    let (code, d', (woken, s', sems')) = wakeup_device c units type unit status false d s sems in
    record {
      ticks = ticks;
      devices = d';
      sems = sems';
      sched = if woken then dispatch c false s' else some s';
    }

unfoldable pub rotate : Config → Handled → Handled
rotate c h = elim h.sched [ none ↦ h | some s ↦ record h { sched = dispatch c true s } ]

-- `DeviceHandler`
unfoldable pub device_handler :
    Config → Units → DeviceType → ℤ → ℤ → ℕ → Devices → Sched → List Sem → Handled
unfolding tick wake_device rotate
device_handler c units clock_dev unit status ticks d s sems =
    let (kept, wakes, turns) = tick ticks in
    let woken =
      if wakes
      then wake_device c units clock_dev unit status kept d s sems
      else record { ticks = kept; devices = d; sems = sems; sched = some s } in
    if turns then rotate c woken else woken
device_handler c units type unit status ticks d s sems =
    wake_device c units type unit status ticks d s sems

-- The body of the loop of `sentinel` up to its wait for an interrupt: it collects a child of each tag.
unfoldable pub sentinel_round : Sched → Contexts → Sched × Contexts
sentinel_round s x =
    let (code, child, t, y) = get_child_status (pos 0) s x in
    let (code', child', u, z) = get_child_status (pos 1) t y in (u, z)

-- `thisProcessInfo.numChildren > 0`, with the info of process `pid`; none where the assertion fails.
unfoldable pub sentinel_waits : ℕ → Sched → Option Bool
sentinel_waits pid s = elim (get_proc_info pid s).1 [
  | none ↦ none
  | some info ↦ some (ltb 0 info.num_children)
]
