-- ===== src/Libc/Itoa/Tests.antt =====
-- Runs of `itoa`, and its theorems at concrete values.
use mal_os.Prelude.{
  ℕ, ◌-◌, ◌^◌, ◌≤◌, ◌≡◌, refl, ◌↔◌, ◌⊎◌, inr, none, some, List, [], ◌∷◌, ◌++◌, length, arith,
}
use mal_os.Libc.Itoa.{itoa, emit, finish}
use mal_os.Libc.Itoa.ReadBack.{read_int, read_int-itoa}
use mal_os.Libc.Itoa.RoundTrip.{size, itoa_overruns_iff}

-- The pattern of -305.
abbrev minus_305 : ℕ
minus_305 = 2 ^ 32 - 305

decimal : itoa minus_305 10 ≡ some (4, b'-' ∷ b'3' ∷ b'0' ∷ b'5' ∷ 0 ∷ [])
unfolding itoa emit finish
decimal = refl

hexadecimal : itoa 0xbeef 16 ≡ some (4, b'b' ∷ b'e' ∷ b'e' ∷ b'f' ∷ 0 ∷ [])
unfolding itoa emit finish
hexadecimal = refl

-- INT_MIN cannot be negated.
int_min_decimal : itoa (2 ^ 31) 10 ≡ none
unfolding itoa
int_min_decimal = refl

binary_overrun : itoa 0x10000 2 ≡ none
unfolding itoa emit finish
binary_overrun = refl

itoa_overruns_iff_example :
    (itoa 0x10000 2 ≡ none)
    ↔ ((◌≡◌ {A = ℕ} 2 10) × (◌≡◌ {A = ℕ} 0x10000 (2 ^ 31))) ⊎ (2 ^ 16 ≤ size 0x10000 2)
itoa_overruns_iff_example = itoa_overruns_iff 2 (omega arith) (omega arith) 0x10000

read_int-itoa_example :
    (text : List ℕ) × (itoa minus_305 10 ≡ some (length text, text ++ 0 ∷ []))
    × (read_int 10 text ≡ minus_305)
read_int-itoa_example =
    read_int-itoa 10 minus_305 (omega arith) (omega arith) (omega arith) (omega arith)
      (inr (λ e. absurd (omega (arith, e))))
