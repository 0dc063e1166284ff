-- ===== src/Kernel/Far/Peek.antt =====
-- Far memory read back.
use mal_os.Prelude.{ℕ, ◌+◌, ◌/◌, ◌^◌, ◌<◌, ◌≡◌, ◌==◌, ◌||◌, if◌then◌else◌, u32, arith}
use mal_os.Libc.Memory.{Mem}
use mal_os.Kernel.Far.{linear, farpeekl, farpokeb}

-- The four bytes of a double word, poked one by one.
abbrev pub poke_double : (ℕ → ℕ) → ℕ → ℕ → ℕ → Mem → Mem
poke_double base sel off v m = farpokeb base sel (off + 3) (v / 2 ^ 24) (
    farpokeb base sel (off + 2) (v / 2 ^ 16)
      (farpokeb base sel (off + 1) (v / 2 ^ 8) (farpokeb base sel off v m)))

-- A double word that is poked byte by byte is peeked again, wherever its segment begins and even where
-- it wraps around the end of the memory, and no byte outside the four changes.
pub farpeekl-poke_double :
    (base : ℕ → ℕ) (sel off v p : ℕ) (m : Mem)
    → v < 2 ^ 32
    → let a = linear base sel off in
      let m' = poke_double base sel off v m in
      (farpeekl base sel off m' ≡ v)
      × (m' p ≡ (
          if p == a || (p == u32 (a + 1) || (p == u32 (a + 2) || p == u32 (a + 3)))
          then m' p
          else m p))
unfolding farpeekl farpokeb
farpeekl-poke_double base sel off v p m h = (ground arith, ground arith)
