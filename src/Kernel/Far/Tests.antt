-- ===== src/Kernel/Far/Tests.antt =====
-- A double word across the end of the memory.
use mal_os.Prelude.{ℕ, ◌+◌, ◌-◌, ◌^◌, ◌≡◌, ◌==◌, ◌||◌, if◌then◌else◌, u32, arith}
use mal_os.Libc.Memory.{Mem}
use mal_os.Kernel.Far.{farpeekl}
use mal_os.Kernel.Far.Peek.{poke_double, farpeekl-poke_double}

abbrev zeros : Mem
zeros p = 0

abbrev flat : ℕ → ℕ
flat sel = 2 ^ 32 - 2

farpeekl-poke_double_example :
    let a = u32 (2 ^ 32 - 2 + 0) in
    let m' = poke_double flat 0x10 0 0x12345678 zeros in
    (farpeekl flat 0x10 0 m' ≡ 0x12345678)
    × (m' 7 ≡ (
        if 7 == a || (7 == u32 (a + 1) || (7 == u32 (a + 2) || 7 == u32 (a + 3))) then m' 7 else 0))
farpeekl-poke_double_example = farpeekl-poke_double flat 0x10 0 0x12345678 7 zeros (omega arith)
