-- ===== src/Phase1.antt =====
-- phase1: contexts, processes, semaphores and devices of the simulator.
pub mod Types
pub mod Queue
pub mod Procs
pub mod Contexts
pub mod Processes
pub mod Sems
pub mod Devices
pub mod Interrupts
pub mod Join
pub mod Kernel
pub mod Startup
pub mod Critical
mod Tests
