-- ===== src/Phase2.antt =====
-- phase2: what the kernel processes of the simulator offer: disks, sleep and system calls.
pub mod Calls
pub mod Links
pub mod Disk
pub mod Clock
pub mod Syscalls
pub mod Stubs
mod Tests
