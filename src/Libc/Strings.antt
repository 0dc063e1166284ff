-- ===== src/Libc/Strings.antt =====
-- BIOS/libc/strlen.c, and `reverse` of BIOS/libc/itoa.c, on the byte memory.
-- `none` is fuel that has run out. A `size_t` has 32 bits, and a `char` that is kept in an `int` is the
-- same byte.
pub mod Reverse
mod Tests
use mal_os.Prelude.{
  ℕ, zero, suc, ◌+◌, ◌-◌, ◌^◌, u32, ltb, if◌then◌else◌, truth, Option, none, some, true, false,
  ◌>>=◌,
}
use mal_os.Libc.Memory.{Mem, store}

-- The loop of `strlen`.
unfoldable pub count_from : ℕ → ℕ → ℕ → Mem → Option ℕ
count_from zero len str m = none
count_from (suc fuel) len str m = elim (truth (m (str + len))) [
  | true ↦ count_from fuel (u32 (len + 1)) str m
  | false ↦ some len
]

unfoldable pub strlen : ℕ → ℕ → Mem → Option ℕ
strlen fuel str m = count_from fuel 0 str m

-- The loop of `reverse` from an `i` and a `j` on that are not negative. `j` falls and `i` does not pass
-- it by more than one, so both stay in their type; it ends by `j` at 0 at the latest.
unfoldable pub swap_ends : ℕ → ℕ → ℕ → Mem → Mem
swap_ends i zero s m = m
swap_ends i (suc j) s m =
    let c = m (s + i) in
    let m₁ = store (store m (s + i) (m (s + suc j))) (s + suc j) c in
    let rest = swap_ends (i + 1) j s m₁ in if ltb i (suc j) then rest else m

-- `strlen(s)-1` is a `size_t` that becomes the `int` of the same pattern: it is negative for the empty
-- string and for one of more than 2^31 characters, and then the loop does not run.
unfoldable pub reverse : ℕ → ℕ → Mem → Option Mem
reverse fuel s m = elim (strlen fuel s m) [
  | none ↦ none
  | some len ↦
      let j = u32 (len + 2 ^ 32 - 1) in
      let turned = swap_ends 0 j s m in some (if ltb j (2 ^ 31) then turned else m)
]
