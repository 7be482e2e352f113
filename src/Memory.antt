-- ===== src/Memory.antt =====
-- kernel/modules/memory: the memory task.
pub mod Buddy
pub mod Paging
pub mod Fault
pub mod Exit
pub mod Release
pub mod Fork
pub mod Init
pub mod Elf
pub mod Load
pub mod StartUp
