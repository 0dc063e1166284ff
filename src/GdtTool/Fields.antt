-- ===== src/GdtTool/Fields.antt =====
-- The fields of a descriptor, as the processor reads them.
use mal_os.Prelude.{
  bit_or_beside, ℕ, ◌+◌, ◌*◌, ◌/◌, ◌%◌, ◌^◌, ◌<◌, ◌≡◌, ◌∙◌, ap, ap₂, bit_and, bit_or, u32, u64,
  ◌<<◌, ◌>>◌, arith, bit_and-ones, bit_and-shifted, bit_and-split, bit_or-shifted, bit_or-split,
  bit_or_comm, bit_or-zero,
}
use mal_os.GdtTool.{create_descriptor}

limit_high : (limit : ℕ) → bit_and limit 0x000F0000 ≡ limit / 2 ^ 16 % 2 ^ 4 * 2 ^ 16
limit_high limit = omega (arith, bit_and-shifted 16 15 limit, bit_and-ones 4 (limit / 2 ^ 16))

-- The flags lose their bits 8 to 11.
flag_bits :
    (flag : ℕ)
    → bit_and (flag << 8) 0x00F0FF00 ≡ flag / 2 ^ 12 % 2 ^ 4 * 2 ^ 20 + flag % 2 ^ 8 * 2 ^ 8
flag_bits flag = omega (
  arith,
  bit_and-shifted 8 0xF0FF (flag << 8),
  ap (λ x. bit_and x 0xF0FF) {x = flag * 2 ^ 8 / 2 ^ 8} {y = flag / 2 ^ 8 * 2 ^ 8 + flag % 2 ^ 8}
      (omega arith),
  bit_and-split 8 (flag / 2 ^ 8) (flag % 2 ^ 8) 0xF0 0xFF (omega arith) (omega arith),
  bit_and-shifted 4 15 (flag / 2 ^ 8),
  bit_and-ones 4 (flag / 2 ^ 8 / 2 ^ 4),
  bit_and-ones 8 (flag % 2 ^ 8),
)

base_high : (base : ℕ) → base < 2 ^ 32 → bit_and base 0xFF000000 ≡ base / 2 ^ 24 * 2 ^ 24
base_high base h = omega (arith, bit_and-shifted 24 255 base, bit_and-ones 8 (base / 2 ^ 24))

-- The limit's bits between the two parts of the flags.
interleaved :
    (a f g : ℕ)
    → a < 2 ^ 4
    → g < 2 ^ 8
    → bit_or (a * 2 ^ 16) (f * 2 ^ 20 + g * 2 ^ 8) ≡ f * 2 ^ 20 + a * 2 ^ 16 + g * 2 ^ 8
interleaved a f g ha hg = omega (
  arith,
  ap (λ x. bit_or x (f * 2 ^ 20 + g * 2 ^ 8)) {x = a * 2 ^ 16} {y = 0 * 2 ^ 20 + a * 2 ^ 16}
      (omega arith),
  bit_or-split 20 0 (a * 2 ^ 16) f (g * 2 ^ 8) (omega arith) (omega arith),
  bit_or_comm 0 f,
  bit_or-zero f,
  bit_or-shifted 16 a (g * 2 ^ 8) (omega arith),
)

-- The high word, from its four parts.
high_word :
    (base limit flag : ℕ)
    → base < 2 ^ 32
    → flag < 2 ^ 16
    → limit < 2 ^ 20
    → bit_or
        (bit_or
          (bit_or (bit_and limit 0x000F0000) (bit_and (flag << 8) 0x00F0FF00))
          (bit_and (base >> 16) 0x000000FF))
        (bit_and base 0xFF000000)
      ≡ base / 2 ^ 24 * 2 ^ 24
        + flag / 2 ^ 12 * 2 ^ 20
        + limit / 2 ^ 16 * 2 ^ 16
        + flag % 2 ^ 8 * 2 ^ 8
        + base / 2 ^ 16 % 2 ^ 8
high_word base limit flag hb hf hl =
    let a = limit / 2 ^ 16 % 2 ^ 4 in
    let f = flag / 2 ^ 12 % 2 ^ 4 in
    let g = flag % 2 ^ 8 in
    let d₂ = bit_or (bit_and limit 0x000F0000) (bit_and (flag << 8) 0x00F0FF00) in
    let d₃ = bit_or d₂ (bit_and (base >> 16) 0x000000FF) in
    let e₂ =
      ap₂ bit_or (limit_high limit) (flag_bits flag)
      ∙ interleaved a f g (omega arith) (omega arith) in
    let middle = bit_and-ones 8 (base / 2 ^ 16) in
    let e₃ =
      bit_or_beside 8 (f * 2 ^ 12 + a * 2 ^ 8 + g) (bit_and (base >> 16) 0x000000FF) d₂
        (omega (arith, e₂)) (omega (arith, middle)) in
    let e₄ =
      bit_or_comm d₃ (bit_and base 0xFF000000)
      ∙ bit_or_beside 24 (base / 2 ^ 24) d₃ (bit_and base 0xFF000000) (base_high base hb)
          (omega (arith, e₂, e₃, middle)) in
    omega (arith, e₂, e₃, e₄, middle, base_high base hb)

-- For a base of 32 bits, a limit of 20 and flags of 16, the processor reads in the descriptor the
-- base, the limit, the low eight flags as the access byte and the high four as the other flags; the
-- four flags between them are lost.
pub create_descriptor_fields :
    (base limit flag : ℕ)
    → base < 2 ^ 32
    → limit < 2 ^ 20
    → flag < 2 ^ 16
    → let d = create_descriptor base limit flag in
      (d / 2 ^ 56 * 2 ^ 24 + d / 2 ^ 16 % 2 ^ 24 ≡ base)
      × (d / 2 ^ 48 % 2 ^ 4 * 2 ^ 16 + d % 2 ^ 16 ≡ limit)
      × (d / 2 ^ 40 % 2 ^ 8 ≡ flag % 2 ^ 8)
      × (d / 2 ^ 52 % 2 ^ 4 ≡ flag / 2 ^ 12)
unfolding create_descriptor
create_descriptor_fields base limit flag hb hl hf =
    let hi =
      bit_or
        (bit_or (bit_or (bit_and limit 0x000F0000) (bit_and (flag << 8) 0x00F0FF00))
          (bit_and (base >> 16) 0x000000FF))
        (bit_and base 0xFF000000) in
    let e = high_word base limit flag hb hf hl in
    let d₅ = u64 (hi << 32) in
    let e₅ = bit_or_beside 32 hi (u32 (base << 16)) d₅ (omega (arith, e)) (omega arith) in
    let d₆ = bit_or d₅ (u32 (base << 16)) in
    let low = bit_and-ones 16 limit in
    let e₆ =
      bit_or_beside 16 (hi * 2 ^ 16 + base % 2 ^ 16) (bit_and limit 0x0000FFFF) d₆
        (omega (arith, e, e₅)) (omega (arith, low)) in
    (
      omega (arith, e, e₅, e₆, low),
      omega (arith, e, e₅, e₆, low),
      omega (arith, e, e₅, e₆, low),
      omega (arith, e, e₅, e₆, low),
    )
