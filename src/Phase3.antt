-- ===== src/Phase3.antt =====
-- phase3: virtual memory, its frames and its swap space.
pub mod Types
pub mod Frames
pub mod Swap
pub mod Tables
pub mod Pager
pub mod Faults
pub mod Start
pub mod Pagers
mod Tests
