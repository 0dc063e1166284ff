-- ===== src/Kernel.antt =====
-- The kernel proper, BIOS/kernel and BIOS/drivers.
pub mod Ports
pub mod State
pub mod Vga
pub mod Far
pub mod Cpu
pub mod Processor
pub mod Tty
