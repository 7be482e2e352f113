-- ===== src/Systask.antt =====
-- kernel/modules/systask/systask.c: the system task, which answers requests of the other tasks.
pub mod Env
pub mod Interrupts
pub mod Processes
pub mod Handle
pub mod Owners
pub mod ProcList
pub mod Names
mod Tests
pub mod Lifecycle
pub mod Spawn
