-- ===== src/Libc.antt =====
-- kernel/lib: copies of memory and numbers as text.
pub mod Memcpy
pub mod Memset
pub mod Itoa
pub mod Format
mod Tests
