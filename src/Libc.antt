-- ===== src/Libc.antt =====
-- The kernel's own C library, BIOS/libc.
pub mod Memory
pub mod Itoa
pub mod Printf
pub mod Strings
