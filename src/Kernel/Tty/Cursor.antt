-- ===== src/Kernel/Tty/Cursor.antt =====
-- The cursor in the registers of the CRT controller, which the repository does not hold.
use mal_os.Prelude.{
  ℕ, ◌+◌, ◌*◌, ◌/◌, ◌%◌, ◌^◌, ◌<◌, ◌≡◌, refl, bit_or, bit_and, u8, u16, ◌<<◌, arith,
}
use mal_os.Prelude.{bit_and-ones, bit_or-shifted, bit_or-zero, bit_or_comm, ap, ◌∙◌}
use mal_os.Kernel.Ports.{Ports}
use mal_os.Kernel.State.{Kernel}
use mal_os.Kernel.Tty.{get_cursor_offset, set_cursor_offset}

-- The documented behaviour of the VGA's CRT controller: port 0x3d4 selects a register, port 0x3d5
-- reads and writes the selected one. Only the two registers of the cursor's location are spoken of.
pub record IsCrtc {Dev : Type 0} (hw : Ports Dev) : Type 0 where
  pub index : Dev → ℕ
  pub high : Dev → ℕ
  pub low : Dev → ℕ
  pub high_lt : (d : Dev) → high d < 256
  pub low_lt : (d : Dev) → low d < 256
  pub select :
      (d : Dev) (i : ℕ)
      → i < 256
      → let d' = hw.out8 0x3d4 i d in (index d' ≡ i) × (high d' ≡ high d) × (low d' ≡ low d)
  pub write_high :
      (d : Dev) (v : ℕ)
      → index d ≡ 0x0E
      → v < 256
      → let d' = hw.out8 0x3d5 v d in (high d' ≡ v) × (low d' ≡ low d)
  pub write_low :
      (d : Dev) (v : ℕ)
      → index d ≡ 0x0F
      → v < 256
      → let d' = hw.out8 0x3d5 v d in (high d' ≡ high d) × (low d' ≡ v)
  pub read_high : (d : Dev) → index d ≡ 0x0E → (hw.in8 0x3d5 d).0 ≡ high d
  pub read_low : (d : Dev) → index d ≡ 0x0F → (hw.in8 0x3d5 d).0 ≡ low d
  pub read_keeps : (d : Dev) → let d' = (hw.in8 0x3d5 d).1 in (high d' ≡ high d) × (low d' ≡ low d)

-- The two register values side by side.
or_fields : (lo hi : ℕ) → bit_or (bit_or 0 (u8 lo)) (u8 hi << 8) ≡ u8 hi * 256 + u8 lo
or_fields lo hi = omega (
  arith,
  ap (λ t. bit_or t (u8 hi << 8)) {x = bit_or 0 (u8 lo)} {y = u8 lo}
      (bit_or_comm 0 (u8 lo) ∙ bit_or-zero (u8 lo)),
  bit_or_comm (u8 lo) (u8 hi << 8),
  bit_or-shifted 8 (u8 hi) (u8 lo) (omega arith),
)

module _ {Dev : Type 0} {hw : Ports Dev} (crtc : IsCrtc hw) where
  -- The cell at which the cursor stands.
  abbrev pub cursor : Kernel Dev → ℕ
  cursor k = crtc.high k.dev * 256 + crtc.low k.dev

  -- All but the devices is as before.
  abbrev pub DevOnly : Kernel Dev → Kernel Dev → Type 0
  DevOnly k k' = k' ≡ record k { dev = k'.dev }

  -- Setting the cursor puts it on the cell of the offset, and changes nothing but the devices.
  pub set_cursor_offset_lem :
      (offset : ℕ) (k : Kernel Dev)
      → offset < 2 ^ 16
      → let k' = set_cursor_offset hw offset k in (cursor k' ≡ offset / 2) × DevOnly k k'
  unfolding set_cursor_offset
  set_cursor_offset_lem offset k h =
      let v = bit_and (offset / 2 / 256) 255 % 256 in
      let w = bit_and (offset / 2) 255 % 256 in
      let d₁ = hw.out8 0x3d4 0x0E k.dev in
      let d₂ = hw.out8 0x3d5 v d₁ in
      let d₃ = hw.out8 0x3d4 0x0F d₂ in
      let s₁ = crtc.select k.dev 0x0E (omega arith) in
      let s₂ = crtc.write_high d₁ v s₁.0 (omega arith) in
      let s₃ = crtc.select d₂ 0x0F (omega arith) in
      let s₄ = crtc.write_low d₃ w s₃.0 (omega arith) in
      (
        omega
            (arith, s₁, s₂, s₃, s₄, bit_and-ones 8 (offset / 2 / 256), bit_and-ones 8 (offset / 2)),
        refl,
      )

  -- Reading the cursor gives the offset of its cell and leaves the cursor where it is.
  pub get_cursor_offset_lem :
      (k : Kernel Dev)
      → let (offset, k') = get_cursor_offset hw k in
        (offset ≡ u16 (2 * cursor k)) × (cursor k' ≡ cursor k) × DevOnly k k'
  unfolding get_cursor_offset
  get_cursor_offset_lem k =
      let d₁ = hw.out8 0x3d4 0x0F k.dev in
      let d₂ = (hw.in8 0x3d5 d₁).1 in
      let d₃ = hw.out8 0x3d4 0x0E d₂ in
      let s₁ = crtc.select k.dev 0x0F (omega arith) in
      let lo = (hw.in8 0x3d5 d₁).0 in
      let hi = (hw.in8 0x3d5 d₃).0 in
      let s₃ = crtc.select d₂ 0x0E (omega arith) in
      (
        ground (
          arith,
          s₁,
          s₃,
          crtc.read_low d₁ s₁.0,
          crtc.read_high d₃ s₃.0,
          crtc.read_keeps d₁,
          crtc.high_lt k.dev,
          crtc.low_lt k.dev,
          or_fields lo hi,
        ),
        omega (arith, s₁, s₃, crtc.read_keeps d₁, crtc.read_keeps d₃),
        refl,
      )

  -- For an offset of two bytes, setting the cursor and reading it gives the offset of the cell,
  -- whether or not the offset is even, and changes nothing but the devices.
  pub get-set_cursor_offset :
      (offset : ℕ) (k : Kernel Dev)
      → offset < 2 ^ 16
      → let (offset', k') = get_cursor_offset hw (set_cursor_offset hw offset k) in
        (offset' ≡ 2 * (offset / 2)) × (cursor k' ≡ offset / 2) × DevOnly k k'
  get-set_cursor_offset offset k h =
      let s = set_cursor_offset_lem offset k h in
      let g = get_cursor_offset_lem (set_cursor_offset hw offset k) in
      (
        omega (arith, s.0, g.0),
        omega (arith, s.0, g.1),
        unfold get_cursor_offset set_cursor_offset in refl,
      )
