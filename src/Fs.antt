-- ===== src/Fs.antt =====
-- kernel/modules/fs: the file system task.
pub mod Disk
pub mod File
pub mod Sectors
pub mod Read
pub mod Contents
mod Tests
pub mod Names
pub mod Directory
pub mod Letters
