-- ===== src/Libc/Memory.antt =====
-- BIOS/libc/memcpy.c, memmove.c, memset.c and memcmp.c, over a flat memory of bytes.
-- A pointer is an address, `dst[i]` the byte at `dst + i`, and a loop `for (i = 0; i < size; i++)`
-- recurs on the rounds that are left. Each function returns its result beside the memory it leaves.
pub mod Copy
pub mod Fill
pub mod Compare
mod Tests
use mal_os.Prelude.{ℕ, zero, suc, ◌+◌, ◌-◌, ◌^◌, Bool, ltb, ◌==◌, if◌then◌else◌, u8}

abbrev pub Mem : Type 0
Mem = ℕ → ℕ

abbrev pub store : Mem → ℕ → ℕ → Mem
store m a v p = if p == a then v else m p

-- The loop that `memcpy` and the first branch of `memmove` have in common.
pub copy_up : ℕ → ℕ → ℕ → ℕ → Mem → Mem
copy_up zero i dst src m = m
copy_up (suc left) i dst src m = copy_up left (i + 1) dst src (store m (dst + i) (m (src + i)))

-- `for (i = size; i != 0; i--) dst[i-1] = src[i-1]`
pub copy_down : ℕ → ℕ → ℕ → Mem → Mem
copy_down zero dst src m = m
copy_down (suc i) dst src m = copy_down i dst src (store m (dst + i) (m (src + i)))

unfoldable pub memcpy : ℕ → ℕ → ℕ → Mem → ℕ × Mem
memcpy dst src size m = (dst, copy_up size 0 dst src m)

pub memmove : ℕ → ℕ → ℕ → Mem → ℕ × Mem
memmove dst src size m =
    if ltb dst src then (dst, copy_up size 0 dst src m) else (dst, copy_down size dst src m)

fill : ℕ → ℕ → ℕ → ℕ → Mem → Mem
fill zero i buf v m = m
fill (suc left) i buf v m = fill left (i + 1) buf v (store m (buf + i) (u8 v))

pub memset : ℕ → ℕ → ℕ → Mem → ℕ × Mem
memset buf value size m = (buf, fill size 0 buf value m)

-- An `int` is its 32-bit pattern.
abbrev pub minus_one : ℕ
minus_one = 2 ^ 32 - 1

compare_from : ℕ → ℕ → ℕ → ℕ → Mem → ℕ
compare_from zero i a b m = 0
compare_from (suc left) i a b m =
    let rest = compare_from left (i + 1) a b m in
    if ltb (m (a + i)) (m (b + i))
    then minus_one
    else if ltb (m (b + i)) (m (a + i))
    then 1
    else rest

pub memcmp : ℕ → ℕ → ℕ → Mem → ℕ
memcmp a b size m = compare_from size 0 a b m
