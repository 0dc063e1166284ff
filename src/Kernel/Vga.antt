-- ===== src/Kernel/Vga.antt =====
-- BIOS/drivers/vga.h: the text mode's constants, colours and cells.
pub mod Fields
use mal_os.Prelude.{ℕ, ◌+◌, bit_or, u8, u16, ◌<<◌, ◌>>◌}
use mal_os.Libc.Memory.{Mem, store}

abbrev pub video_mem_addr : ℕ
video_mem_addr = 0xb8000

abbrev pub max_rows : ℕ
max_rows = 25

abbrev pub max_cols : ℕ
max_cols = 80

abbrev pub reg_screen_ctrl : ℕ
reg_screen_ctrl = 0x3d4

abbrev pub reg_screen_data : ℕ
reg_screen_data = 0x3d5

-- `enum vga_color`.
pub data VgaColor : Type 0 where
  black blue green cyan red magenta brown light_grey : VgaColor
  dark_grey light_blue light_green light_cyan light_red light_magenta yellow white : VgaColor

abbrev pub color_code : VgaColor → ℕ
color_code black = 0
color_code blue = 1
color_code green = 2
color_code cyan = 3
color_code red = 4
color_code magenta = 5
color_code brown = 6
color_code light_grey = 7
color_code dark_grey = 8
color_code light_blue = 9
color_code light_green = 10
color_code light_cyan = 11
color_code light_red = 12
color_code light_magenta = 13
color_code yellow = 14
color_code white = 15

unfoldable pub vga_entry_color : VgaColor → VgaColor → ℕ
vga_entry_color fg bg = u8 (bit_or (color_code fg) (color_code bg << 4))

unfoldable pub vga_entry : ℕ → ℕ → ℕ
vga_entry uc color = u16 (bit_or (u8 uc) (u8 color << 8))

-- A `uint16_t` in memory, low byte first.
abbrev pub store16 : Mem → ℕ → ℕ → Mem
store16 m a v = store (store m a (u8 v)) (a + 1) (u8 (v >> 8))
