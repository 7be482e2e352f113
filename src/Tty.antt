-- ===== src/Tty.antt =====
-- kernel/modules/tty: the keyboard's byte buffer, and the scan codes in it.
pub mod Buffer
pub mod Keymap
pub mod Keyboard
