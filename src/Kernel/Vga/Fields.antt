-- ===== src/Kernel/Vga/Fields.antt =====
-- The fields of a colour and of a cell.
use mal_os.Prelude.{ℕ, ◌/◌, ◌%◌, ◌<◌, ◌≡◌, bit_or, u8, ◌<<◌, arith, bit_or-shifted, bit_or_comm}
use mal_os.Kernel.Vga.{VgaColor, color_code, vga_entry_color, vga_entry, black}

color_code-lt : (c : VgaColor) → color_code c < 16
color_code-lt black = omega arith
color_code-lt _ = omega arith

-- A cell holds its character in the low byte and, in the two halves of the high byte, the colour of
-- the text and of the background: each is had back from the cell.
pub vga_entry_fields :
    (uc : ℕ) (fg bg : VgaColor)
    → uc < 256
    → let cell = vga_entry uc (vga_entry_color fg bg) in
      (cell % 256 ≡ uc) × (cell / 256 % 16 ≡ color_code fg) × (cell / 256 / 16 ≡ color_code bg)
unfolding vga_entry vga_entry_color
vga_entry_fields uc fg bg h =
    let f = color_code fg in
    let b = color_code bg in
    let color = u8 (bit_or f (b << 4)) in
    omega (
      arith,
      color_code-lt fg,
      color_code-lt bg,
      bit_or_comm f (b << 4),
      bit_or-shifted 4 b f (color_code-lt fg),
      bit_or_comm (u8 uc) (u8 color << 8),
      bit_or-shifted 8 (u8 color) (u8 uc) (omega arith),
    )
