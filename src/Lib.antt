-- ===== src/Lib.antt =====
-- A model of MalOS, a small 32-bit x86 kernel started by the BIOS, with proofs about its parts.
--
-- The parts of the program and the files that model them (paths are from the repository's root):
--
-- - BIOS/boot and BIOS/kernel/kernel_entry.asm (Boot): the boot sector as functions (Boot/Sector), on
--   a BIOS that is a parameter, the record `Bios` with the laws `IsBios`, and the table of segments
--   (Boot/Gdt).
-- - BIOS/libc: `memcpy`, `memmove`, `memset` and `memcmp` on a flat byte memory (Libc/Memory),
--   `itoa` with its buffer of 16 digits (Libc/Itoa), `printf`, `print`, `putchar` and `puts`
--   (Libc/Printf), which write to the terminal, and `strlen` and `reverse` (Libc/Strings).
--   Memory.Copy, Fill and Compare, Itoa.Digits, RoundTrip and ReadBack, Printf.Render, Prints,
--   Writes, Bounded, Puts and Screens hold the proofs.
-- - BIOS/kernel/hardware.c: the port instructions (Kernel/Ports), far memory (Kernel/Far) and the
--   processor's registers (Kernel/Cpu), on its instructions as a parameter, the record `Cpu`.
--   The machine behind the ports is a parameter, the record `Ports`. Each driver states what it
--   expects of its device as a record of laws: `IsCrtc` (Kernel/Tty/Cursor), `IsPics`
--   (Interrupts/Isr/Pic), `IsPit` (Interrupts/Timer/Pit), `IsHostBridge` (Pci/Config), `IsStore`
--   (Pci/Store). The modules named Tests hold small devices that have them.
-- - The globals of BIOS/kernel, with the memory and the devices: the record `Kernel`
--   (Kernel/State). Each C function on globals is a function on that record; its result is beside
--   the new state.
-- - BIOS/drivers/vga.h (Kernel/Vga) and BIOS/kernel/tty.c (Kernel/Tty): the text terminal.
--   Kernel/Tty/Screen has the screen as cells and a cursor, and what typing does to it.
-- - BIOS/kernel/idt.c, isr.c, test_int.c (Interrupts/Idt, Interrupts/Isr): the interrupt
--   descriptor table, the interrupt controllers, and the handlers that the assembly stubs call.
--   `isr_handler` prints with `printf`, and calls what `register_interrupt_handler` put into the
--   table.
-- - BIOS/kernel/interrupt.asm (Interrupts/Stubs): the stubs as lists of instructions of a processor
--   whose registers stand beside the kernel (Kernel/Processor), and the way of an interrupt through the
--   gate and the stub to the C function and back.
-- - BIOS/kernel/timer.c (Interrupts/Timer): the clock's divisor and `sleep`.
-- - BIOS/kernel/pci.c (Pci): the configuration space, and the search for devices, which prints a
--   line for each with `printf`.
-- - BIOS/kernel/paging/kheap.c (Paging/Kheap): the placement allocator. Of
--   BIOS/kernel/paging/paging.c: the bitset of frames and the allocation of frames
--   (Paging/Frames, and the set that it stands for, Paging/Frames/Sets), the page
--   directory and `initialise_paging` (Paging/Directory), the same on the bytes of the memory, with
--   the processor's page walk (Paging/Bytes), and the report of `page_fault` (Paging/Fault).
-- - BIOS/kernel/kernel.c (Main): `kmain`, which calls the parts one after the other, waits with
--   `sleep` while the timer's interrupts come, and divides by zero at its end. `IsBoard`
--   (Main/Board) is what it expects of the devices together. Main/System has the steps of the
--   kernel at work, calls and the timer's interrupts in any order, as a relation. Main/Trace
--   relates its wait to `sleep` of Interrupts/Timer, and Main/Interrupted to the wait on the
--   processor, where each interrupt goes through its gate and its stub.
-- - gdt_tool.c (GdtTool): the tool for the host that packs the descriptors for the boot sector.
--
-- Conventions. A word of w bits is a natural number, and each place where C cuts a value to a
-- width is written (`u8`, `u16`, `u32`). A C string is the list of its characters before the NUL.
-- Undefined behaviour is the result `none`, or `undefined` where a function has other ways to
-- end.
--
-- Loops with a fixed number of rounds recur on the rounds that are left. `printf` takes the
-- length of its format as fuel, which is enough since every round takes a character. The digit
-- loop of `itoa` recurs on the free bytes of its buffer. `sleep` waits for interrupts, so its
-- fuel is the number of its reads of the tick. In `kmain` each wait has fuel for its rounds, and
-- a tick comes within `period` of them. The loop over the pages takes fuel, since it moves its
-- own bound: 1024 rounds fill the first table.
--
-- Interrupts come while `kmain` waits and not between its other statements. In Paging/Directory the
-- page directory, the tables and the bitset are fields of a record, apart from each other; in
-- Paging/Bytes they are bytes of one memory.
--
-- Not modelled: `io_wait` and `cpu_relax`, which only let time pass; BIOS/kernel/detect_cpu.c, another
-- project's code under its own licence, which prints what `cpuid` returns and is a parameter of
-- `kmain`; the end of isr_common_stub, which is not reached.
pub mod Prelude
pub mod Libc
pub mod Kernel
pub mod Boot
pub mod GdtTool
pub mod Interrupts
pub mod Main
pub mod Paging
pub mod Pci
