-- ===== src/Sched.antt =====
-- The scheduler of assignment3 (schedule.c): contexts, timer ticks, signals and the system calls
-- that start, stop and suspend processes.
pub mod Context
pub mod Pick
pub mod Signal
pub mod Tick
pub mod Calls
pub mod Running
pub mod Sleeping
