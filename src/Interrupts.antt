-- ===== src/Interrupts.antt =====
-- Interrupts: the descriptor table, the programmable interrupt controllers, the service routines and
-- the timer (BIOS/kernel/idt.c, isr.c, test_int.c and timer.c).
pub mod Idt
pub mod Isr
pub mod Stubs
pub mod Timer
