-- ===== src/Vm.antt =====
-- The address spaces of assignment1 (context_mm.c) and assignment2 (entry.c).
pub mod Tables
pub mod Context
pub mod Fault
pub mod Syscall
