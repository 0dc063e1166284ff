-- ===== src/Libc/Itoa.antt =====
-- `itoa` of BIOS/libc/itoa.c. An `int` is its 32-bit pattern. The digits are pushed on `tmp`, a
-- buffer of 16 bytes: it is a list with the digit pushed last in front, and `none` stands for what
-- C leaves undefined, the negation of INT_MIN, a push on the full buffer or a division by the base 0.
pub mod Digits
pub mod RoundTrip
pub mod ReadBack
mod Tests
use mal_os.Prelude.{
  ℕ, zero, suc, ◌+◌, ◌-◌, ◌/◌, ◌%◌, ◌^◌, Bool, true, false, ◌&&◌, ◌==◌, ltb, leb, if◌then◌else◌,
  Option, none, some, List, [], ◌∷◌, ◌++◌, length, u32, not,
}

abbrev pub digit_char : ℕ → ℕ
digit_char i = if ltb i 10 then i + b'0' else i + b'a' - 10

abbrev pub is_empty : List ℕ → Bool
is_empty [] = true
is_empty (c ∷ s) = false

-- `while (v || tp == tmp)`: `room` is the number of bytes of `tmp` that are free.
unfoldable pub emit : ℕ → ℕ → ℕ → List ℕ → Option (List ℕ)
emit zero base v tmp = if v == 0 && not (is_empty tmp) then some tmp else none
emit (suc room) base v tmp =
    let more = emit room base (v / base) (digit_char (v % base) ∷ tmp) in
    if v == 0 && not (is_empty tmp) then some tmp else more

abbrev pub is_negative : ℕ → ℕ → Bool
is_negative value base = base == 10 && leb (2 ^ 31) value

-- `-value` on an `int`.
abbrev pub negate : ℕ → Option ℕ
negate value = if value == 2 ^ 31 then none else some (u32 (2 ^ 32 - value))

-- What is printed behind the sign.
abbrev pub magnitude : ℕ → ℕ → Option ℕ
magnitude value base = if is_negative value base then negate value else some value

-- The length that is returned, and the bytes of `dst` up to the terminating NUL. The loop
-- `while (tp > tmp) *dst++ = *--tp` copies the digits from the one pushed last on.
unfoldable pub finish : Bool → List ℕ → ℕ × List ℕ
finish true tmp = (length tmp + 1, b'-' ∷ (tmp ++ 0 ∷ []))
finish false tmp = (length tmp, tmp ++ 0 ∷ [])

abbrev pub finish_all : Bool → Option (List ℕ) → Option (ℕ × List ℕ)
finish_all negative none = none
finish_all negative (some tmp) = some (finish negative tmp)

unfoldable pub itoa : ℕ → ℕ → Option (ℕ × List ℕ)
itoa value base = if base == 0 then none else elim (magnitude value base) [
  | none ↦ none
  | some v ↦ finish_all (is_negative value base) (emit 16 base v [])
]
