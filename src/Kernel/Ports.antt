-- ===== src/Kernel/Ports.antt =====
-- Port input and output, BIOS/kernel/hardware.c. What is behind the ports is not part of the
-- repository: `Ports` stands for the `in` and `out` instructions and the devices they reach, and
-- each component states what it expects of its device as a record of laws.
use mal_os.Prelude.{ℕ, u8, u16, u32}

pub record Ports (Dev : Type 0) : Type 0 where
  pub in8 : ℕ → Dev → ℕ × Dev
  pub out8 : ℕ → ℕ → Dev → Dev
  pub in16 : ℕ → Dev → ℕ × Dev
  pub out16 : ℕ → ℕ → Dev → Dev
  pub in32 : ℕ → Dev → ℕ × Dev
  pub out32 : ℕ → ℕ → Dev → Dev

-- The arguments are cut to their C types at the call: a `uint16_t` port, and the datum's width.
module _ {Dev : Type 0} (hw : Ports Dev) where
  abbrev pub ports_inb : ℕ → Dev → ℕ × Dev
  ports_inb port d = let (v, d') = hw.in8 (u16 port) d in (u8 v, d')

  abbrev pub ports_outb : ℕ → ℕ → Dev → Dev
  ports_outb port v d = hw.out8 (u16 port) (u8 v) d

  abbrev pub ports_inw : ℕ → Dev → ℕ × Dev
  ports_inw port d = let (v, d') = hw.in16 (u16 port) d in (u16 v, d')

  abbrev pub ports_outw : ℕ → ℕ → Dev → Dev
  ports_outw port v d = hw.out16 (u16 port) (u16 v) d

  abbrev pub ports_inl : ℕ → Dev → ℕ × Dev
  ports_inl port d = let (v, d') = hw.in32 (u16 port) d in (u32 v, d')

  abbrev pub ports_outl : ℕ → ℕ → Dev → Dev
  ports_outl port v d = hw.out32 (u16 port) (u32 v) d

  unfoldable pub reboot : Dev → Dev
  reboot d = ports_outb 0x64 0xFE d
