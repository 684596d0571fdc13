-- ===== src/Phase3/Faults.antt =====
-- Page faults between the processes and the pagers, from phase3c.c and phase3b.c: the queue of
-- faults, what `FaultHandler` puts there and does when it is woken, and `P3PageFaultHandler`, which
-- serves a fault where there is no pager. The semaphore on which the process waits is not in the model.
use small_os_simulator.Common.{ℕ, ◌/◌, Bool, true, false, Option, none, some, set, get_or}
use small_os_simulator.Phase2.Links
use small_os_simulator.Phase2.Links.{Ptr, Links}
use small_os_simulator.Phase3.Tables.{Vm}
use small_os_simulator.Phase3.Pager.{Cause, Fault, Round, kills, resumes, put_table}
use small_os_simulator.Phase3.Swap.{Mmu}

-- `pageFaultQueueInsert`, `pageFaultQueueRemove` and `freeAllRequestQueue`, the last with fuel for
-- the nodes. None where the code follows a pointer to no node.
unfoldable pub fault_insert : Ptr → Option Fault → Links Fault → Option (Bool × Links Fault)
fault_insert fresh fault q = Links.insert fresh fault q

unfoldable pub fault_remove : Links Fault → Option (Bool × Option Fault × Links Fault)
fault_remove q = Links.remove q

unfoldable pub free_faults : ℕ → Links Fault → Option (Links Fault)
free_faults fuel q = Links.free_all fuel q

-- `FaultHandler` up to the wait, for the current process `pid`.
unfoldable pub raise_fault : ℕ → ℕ → Cause → Ptr → Links Fault → Option (Bool × Links Fault)
unfolding fault_insert
raise_fault pid offset cause fresh q =
    fault_insert fresh (some (record { pid = pid; offset = offset; cause = cause })) q

-- What `FaultHandler` does when the pager has answered: `P2_Terminate`, or the page table goes to the
-- MMU and the process goes on.
pub data Woken : Type 0 where
  terminates continues : Woken

unfoldable pub woken : (mmu : Mmu) → Round mmu → Option Woken
woken mmu (kills p) = some terminates
woken mmu (resumes zeroed p) = some continues
woken mmu _ = none

-- How `P3PageFaultHandler` ends: USLOSS halts, or the page is there and the process goes on.
pub data Handled : Type 0 where
  halts : Handled
  mapped : Vm → Handled

-- `P3PageFaultHandler` for process `pid` of the table, at an offset, with whether the cause is
-- USLOSS_MMU_FAULT: page x is mapped to frame x.
unfoldable pub page_fault_handler : ℕ → Bool → ℕ → ℕ → Vm → Handled
page_fault_handler page_size is_fault pid offset vm =
    let page = offset / page_size in
    elim is_fault [
      | false ↦ halts
      | true ↦ elim (get_or vm.tables pid none) [
        | none ↦ halts
        | some t ↦ mapped (
            put_table pid
              (set t page (record { incore = true; read = true; write = true; frame = page })) vm)
      ]
    ]
