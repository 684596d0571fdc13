-- ===== src/Phase1/Startup.antt =====
-- `startup` of phase1d.c up to the dispatch of its fork: the initialisation of contexts, processes and
-- semaphores, the semaphores of the devices, and the sentinel. The interrupt vector is not in the model.
pub mod Boot
use small_os_simulator.Common.{
  ℕ, zero, suc, ◌+◌, Bool, true, false, Option, none, some, List, [], ◌∷◌, ◌++◌, ℤ, pos, set,
}
use small_os_simulator.Phase1.Types.{Config, Name, Sched}
use small_os_simulator.Phase1.Procs.{proc_init}
use small_os_simulator.Phase1.Contexts.{Contexts, context_table_init}
use small_os_simulator.Phase1.Processes.{ForkArgs, Forked, fork}
use small_os_simulator.Phase1.Sems.{Sem, sem_init, sem_create}
use small_os_simulator.Phase1.Devices.{Devices}
use small_os_simulator.Phase1.Kernel.{Kernel}

-- P1D_DEVSEMS_ and the digit of the device.
abbrev pub device_name : ℕ → Name
device_name i = 80 ∷ 49 ∷ 68 ∷ 95 ∷ 68 ∷ 69 ∷ 86 ∷ 83 ∷ 69 ∷ 77 ∷ 83 ∷ 95 ∷ (48 + i) ∷ []

-- The loop over the devices, with `left` of them to go; the code of `P1_SemCreate` is not looked at.
unfoldable pub create_device_sems : Config → ℕ → ℕ → Devices → List Sem → Devices × List Sem
create_device_sems c zero i d sems = (d, sems)
create_device_sems c (suc left) i d sems =
    let (code, sid, next) = sem_create c (some (device_name i)) 0 sems in
    create_device_sems c left (suc i)
      (elim sid [ none ↦ d | some k ↦ record d { sems = set d.sems i (pos k) } ]) next

-- The arguments of the fork, with the address of `sentinel`.
abbrev pub sentinel_args : Config → ℕ → ForkArgs
sentinel_args c sentinel = record {
  name = some (115 ∷ 101 ∷ 110 ∷ 116 ∷ 105 ∷ 110 ∷ 101 ∷ 108 ∷ []);
  func = sentinel;
  arg = 0;
  stacksize = pos c.min_stack;
  priority = pos 6;
  tag = pos 0;
}

-- `startup`: what the fork has done before its dispatch, and the devices and semaphores.
unfoldable pub startup : Config → ℕ → ℕ → Kernel → Devices → Forked × Devices × List Sem
unfolding create_device_sems
startup c wrapper sentinel k d =
    let (d', sems) = create_device_sems c 8 0 d (sem_init k.sems) in
    (
      fork c wrapper (sentinel_args c sentinel) (proc_init k.sched) (context_table_init k.contexts),
      d',
      sems,
    )
