-- ===== src/Pci/Identifier.antt =====
-- The address word of a register.
use mal_os.Prelude.{
  bit_or_beside, ℕ, ◌+◌, ◌*◌, ◌/◌, ◌^◌, ◌<◌, ◌≡◌, refl, u8, u32, bit_and, bit_or, ◌<<◌, arith,
  bit_and-shifted, bit_and-ones,
}
use mal_os.Pci.{construct_identifier}

-- The enable bit, and the numbers of the bus, the slot, the function and the double word.
abbrev pub address : ℕ → ℕ → ℕ → ℕ → ℕ
address bus slot func reg = 2 ^ 31 + bus * 2 ^ 16 + slot * 2 ^ 11 + func * 2 ^ 8 + reg * 4

register_lem : (offset : ℕ) → offset < 256 → bit_and offset 0xFC ≡ offset / 4 * 4
register_lem offset h = omega (arith, bit_and-shifted 2 63 offset, bit_and-ones 6 (offset / 4))

-- For a bus below 256, a slot below 32 and a function below 8, `construct_identifier` puts each number
-- into its own field, with the enable bit, and drops the two low bits of the offset.
pub construct_identifier-address :
    (bus slot func offset : ℕ)
    → bus < 256
    → slot < 32
    → func < 8
    → offset < 256
    → construct_identifier bus slot func offset ≡ address bus slot func (offset / 4)
unfolding construct_identifier
construct_identifier-address bus slot func offset hb hs hf ho =
    let x₁ = bit_or (0x01 << 31) (u32 (u32 (u8 bus) << 16)) in
    let x₂ = bit_or x₁ (u32 (u32 (u8 slot) << 11)) in
    let x₃ = bit_or x₂ (u32 (u32 (u8 func) << 8)) in
    let e₁ = bit_or_beside 31 1 (u32 (u32 (u8 bus) << 16)) (0x01 << 31) refl (omega arith) in
    let e₂ =
      bit_or_beside 16 (2 ^ 15 + bus) (u32 (u32 (u8 slot) << 11)) x₁ (omega arith) (omega arith) in
    let e₃ =
      bit_or_beside 11 (2 ^ 20 + bus * 2 ^ 5 + slot) (u32 (u32 (u8 func) << 8)) x₂ (omega arith)
        (omega arith) in
    let e₄ =
      bit_or_beside 8 (2 ^ 23 + bus * 2 ^ 8 + slot * 2 ^ 3 + func) (bit_and (u8 offset) 0xFC) x₃
        (omega arith) (omega (arith, register_lem (u8 offset) (omega arith))) in
    omega (arith, e₄, register_lem (u8 offset) (omega arith))
