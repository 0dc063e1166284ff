-- ===== src/Kernel/Far.antt =====
-- The far memory access of BIOS/kernel/hardware.c. The descriptors of the segments stand in assembly:
-- `base` gives the address at which the segment of a selector begins. Linear addresses wrap around
-- at 4 GiB, and limits are not looked at.
pub mod Peek
mod Tests
use mal_os.Prelude.{ℕ, ◌+◌, ◌*◌, ◌^◌, u8, u16, u32}
use mal_os.Libc.Memory.{Mem, store}

module _ (base : ℕ → ℕ) where
  abbrev pub linear : ℕ → ℕ → ℕ
  linear sel off = u32 (base (u16 sel) + u32 off)

  -- A double word, low byte first.
  unfoldable pub farpeekl : ℕ → ℕ → Mem → ℕ
  farpeekl sel off m =
      let a = linear sel off in
      m a + m (u32 (a + 1)) * 2 ^ 8 + m (u32 (a + 2)) * 2 ^ 16 + m (u32 (a + 3)) * 2 ^ 24

  unfoldable pub farpokeb : ℕ → ℕ → ℕ → Mem → Mem
  farpokeb sel off v m = store m (linear sel off) (u8 v)
