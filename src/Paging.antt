-- ===== src/Paging.antt =====
-- BIOS/kernel/paging: the placement allocator, the bitset of frames and the page directory.
pub mod Kheap
pub mod Frames
pub mod Directory
pub mod Fault
pub mod Bytes
