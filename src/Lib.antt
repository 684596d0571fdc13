-- ===== src/Lib.antt =====
-- The core of the small OS simulator: a kernel in three phases over the USLOSS machine simulator,
-- which is a library from outside.
--
-- Phase 1 keeps the contexts, the processes and the semaphores. `Phase1.Contexts` models the
-- context table of phase1/phase1a/phase1a.c (P1ContextCreate is `context_create`, P1ContextSwitch
-- `switch_to`, P1ContextFree `context_free`), and `Phase1.Interrupts` the interrupt switches of the
-- same file. `Phase1.Queue` models the dispatch queue, `Phase1.Procs` the process states and the
-- scheduler (P1SetState is `set_state`, P1Dispatch `dispatch`, P1_GetPid `get_pid`) and
-- `Phase1.Processes` the life of processes (P1_Fork is `fork`, P1_Quit `quit`, P1GetChildStatus
-- `get_child_status`), all of phase1/phase1b/phase1b.c. `Phase1.Sems` models
-- phase1/phase1c/phase1c.c: a round of P1_P is `p_round`, and P1_V up to its dispatch is
-- `v_update`. Of phase1/phase1d/phase1d.c, `Phase1.Devices` models checkTypeAndUnit, P1_WaitDevice
-- and P1_WakeupDevice, and `Phase1.Join` a round of P1_Join, the DeviceHandler and a round of the
-- sentinel, and `Phase1.Startup` startup. The processes use the queue and the contexts, the
-- semaphores and devices use P1SetState of the processes. `Phase1.Kernel` puts the statics
-- together, with the operations as steps in any order, and `Phase1.Critical` has processes that
-- guard a section with P1_P and P1_V of one semaphore between such steps, in runs where P1_GetPid
-- names the process at the head of the dispatch queue whenever P1_P blocks on that semaphore, and
-- `Phase1.Critical.Fair` the order in which P1_V wakes.
--
-- Phase 2 offers devices to processes. `Phase2.Links` models the linked queue on the heap of
-- phase2/phase2c/phase2c.c, which phase3c.c has a second time for page faults. `Phase2.Disk` models
-- the checks of P2DiskReaderWriterHelper (`check_request`) and the loop of
-- DiskDriverReadWriteHelper (`read_write`, with the assertion that the device takes each request as
-- an end of its own), and `Phase2.Disk.Driver` the driver and its callers over the queue;
-- `Phase2.Disk.Start` is P2DiskInit, `Phase2.Disk.Stop` P2DiskShutdown and `Phase2.Disk.Stubs` has
-- its system calls. `Phase2.Clock` models sleepers and the driver of phase2/phase2b/phase2b.c,
-- `Phase2.Clock.Start` P2ClockInit and the end of P2ClockShutdown, `Phase2.Calls` calls with an
-- assertion behind them, `Phase2.Stubs` the other stubs of system calls, and `Phase2.Syscalls` the
-- table of handlers of phase2/phase2a/phase2a.c and what phase2/phase2d/phase2d.c installs in it.
--
-- Phase 3 is virtual memory. `Phase3.Frames` models the frame pool of phase3/phase3c/phase3c.c,
-- `Phase3.Swap` the swap space of phase3/phase3d/phase3d.c (P3SwapOut is `swap_out`, P3SwapIn
-- `swap_in`, which is told whether its caller can map and unmap the frame of a page from the disk),
-- and `Phase3.Tables` the page tables of phase3/phase3a/phase3a.c and phase3/phase3b/phase3b.c,
-- whose P3_FreePageTable calls the other two. `Phase3.Pager` models a round of the Pager of
-- phase3c.c, which takes a frame, calls the swap space, and fills new pages with zeros through the
-- frames; `Phase3.Faults` the queue of faults and the two fault handlers; `Phase3.Start` P3_VmInit
-- and P3_VmShutdown with the page tables of the pagers, given what they call of phases 1 and 2 by
-- its results, and `Phase3.Pagers` the parts of P3PagerInit and P3PagerShutdown that are about
-- processes and semaphores.
--
-- The statics of a file are a record, and an operation takes it and returns it beside the return
-- code. The constants that the repository does not hold (P1_MAXPROC and the like) are parameters.
-- Numbers are unbounded where the code has an `int` that counts or indexes; an `int` that may be
-- negative is a `ℤ`, and the `unsigned int` of a semaphore and the times of the clock wrap. Lists
-- stand for the linked lists of the semaphores; the queues of requests and of faults are nodes at
-- addresses. What the code asks of USLOSS is a log of calls, and the access bits of the MMU are an
-- interface.
--
-- Four loops run on fuel: the clock hand of P3SwapOut, with two rounds of the frames, the disk
-- driver, with two rounds for each sector, and freeAllRequestQueue, with a round for each node, for
-- which the results below say when that is enough; and the digits that sprintf writes for a number,
-- with one round more than the number, for which `Phase2.Calls.Decimal` does.
--
-- Not modelled: the mode checks, context switches and what runs between them, the mutexes of phases
-- 2 and 3 where a model says so, what the starts and shutdowns of the drivers do behind their first
-- fork or wait, the loops over the pagers with what runs between their rounds, and printed
-- statistics; headers, stubs of later phases and test programs.
pub mod Common
pub mod Phase1
pub mod Phase2
pub mod Phase3
