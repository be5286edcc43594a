-- ===== src/Dev.antt =====
-- The devices in kernel/dev: the terminal's ring buffers and line input, the keyboard's states, the
-- clock's calendar, the device table, the console with its history, and the terminal over these.
pub mod Fifo
pub mod Keyboard
pub mod Time
pub mod Table
pub mod Console
pub mod History
pub mod Tty
pub mod Disk
mod Tests
