-- ===== src/Core.antt =====
-- kernel/core: processes, address translation, the scheduler and message passing.
pub mod Process
pub mod Paging
pub mod Run
pub mod Scheduler
pub mod Ipc
pub mod PagePool
