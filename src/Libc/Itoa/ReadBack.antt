-- ===== src/Libc/Itoa/ReadBack.antt =====
-- What `itoa` writes, read as a number again.
use mal_os.Prelude.{
  ℕ, ◌-◌, ◌^◌, ◌≤◌, ◌<◌, ◌≡◌, refl, ◌∙◌, ap, inl, inr, ◌==◌, if◌then◌else◌, true, false, some, List,
  [], ◌∷◌, ◌++◌, length, arith, All, u32, Bool-cases,
}
use mal_os.Libc.Itoa.{itoa, is_negative}
use mal_os.Libc.Itoa.Digits.{number, IsDigit, IsCanonical}
use mal_os.Libc.Itoa.RoundTrip.{Negates, size, sign, itoa-IsNotation}

-- The `int` of a text, as its 32-bit pattern: the number of its digits, negated behind a minus sign.
abbrev pub read_int : ℕ → List ℕ → ℕ
read_int base [] = 0
read_int base (c ∷ s) = if c == b'-' then u32 (2 ^ 32 - number base 0 s) else number base 0 (c ∷ s)

read_int-digits :
    (base : ℕ) (ds : List ℕ)
    → IsCanonical ds
    → All (IsDigit base) ds
    → read_int base ds ≡ number base 0 ds
read_int-digits base [] canonical digits = absurd canonical
read_int-digits base (c ∷ s) canonical ((value, inl digit), rest) =
    let other : (c == b'-') ≡ false = ground arith in rw other refl
read_int-digits base (c ∷ s) canonical ((value, inr letter), rest) =
    let other : (c == b'-') ≡ false = ground arith in rw other refl

is_negative_base : (value base : ℕ) → is_negative value base ≡ true → (base ≡ 10) × (2 ^ 31 ≤ value)
is_negative_base value base e = ground arith

size-lt : (value base : ℕ) → value < 2 ^ 32 → value < base ^ 16 → size value base < base ^ 16
size-lt value base h fits = elim (Bool-cases (is_negative value base)) [
  | inl e ↦
      let (ten, low) = is_negative_base value base e in rw e (omega (arith, ap (λ b. b ^ 16) ten))
  | inr e ↦ rw e fits
]

-- For a base from 2 to 36 and a value that has at most 16 digits in it, and which is not INT_MIN in
-- base 10, the text that `itoa` writes reads as the value again, the other negative values in base 10
-- included; its length is what `itoa` returns.
pub read_int-itoa :
    (base value : ℕ)
    → 2 ≤ base
    → base ≤ 36
    → value < 2 ^ 32
    → value < base ^ 16
    → Negates value base
    → (text : List ℕ) × (itoa value base ≡ some (length text, text ++ 0 ∷ []))
      × (read_int base text ≡ value)
read_int-itoa base value two most h fits negates =
    let (ds, e, notation) =
      itoa-IsNotation base two most value 16 (omega arith) (omega arith) negates
        (size-lt value base h fits) in
    (
      sign value base ++ ds,
      e,
      elim (Bool-cases (is_negative value base)) [
        | inl neg ↦
            let (ten, low) = is_negative_base value base neg in
            let reads : number base 0 ds ≡ 2 ^ 32 - value = notation.reads ∙ rw neg refl in
            rw neg (omega (arith, reads))
        | inr plain ↦ rw plain (
            read_int-digits base ds notation.canonical notation.digits
            ∙ notation.reads
            ∙ rw plain refl)
      ],
    )
