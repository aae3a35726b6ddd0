-- ===== src/Kernel.antt =====
-- The boot kernel, kernel/src/main.rs: its demonstration with the disk image, the serial port and the
-- lines of text; and the text buffer of kernel/src/vga.rs.
pub mod Image
pub mod Vga
pub mod Serial
pub mod Line
pub mod Demo
mod Witnesses
