-- ===== src/Boot.antt =====
-- The way from the BIOS to the kernel, BIOS/boot and BIOS/kernel/kernel_entry.asm.
pub mod Gdt
pub mod Sector
