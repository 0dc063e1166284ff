-- ===== src/Kernel/Tty.antt =====
-- BIOS/kernel/tty.c, the text terminal. Each function returns what it computes beside the state
-- that it leaves. A `char` is its byte; an `int8_t` is its 8-bit pattern, negative from 128 on.
pub mod Position
pub mod Cursor
pub mod Scroll
pub mod Print
pub mod Text
pub mod Start
pub mod Devices
pub mod Confined
pub mod Screen
pub mod Sample
mod Tests
use mal_os.Prelude.{
  ℕ, zero, suc, ◌+◌, ◌-◌, ◌*◌, ◌/◌, bit_and, bit_or, List, [], ◌∷◌, ◌||◌, ◌&&◌, ltb, leb, ◌==◌,
  if◌then◌else◌, u8, u16, ◌<<◌, ◌>>◌,
}
use mal_os.Libc.Memory.{Mem, memcpy, minus_one}
use mal_os.Kernel.Ports.{Ports}
use mal_os.Kernel.State.{Kernel, outb, inb}
use mal_os.Kernel.Vga.{max_rows, max_cols, reg_screen_ctrl, reg_screen_data, video_mem_addr}
use mal_os.Kernel.Vga.{VgaColor, white, blue, red, vga_entry, vga_entry_color, store16}

pub get_offset : ℕ → ℕ → ℕ
get_offset col row = u16 (2 * (u8 row * max_cols + u8 col))

pub get_offset_row : ℕ → ℕ
get_offset_row offset = u8 (offset / (2 * max_cols))

pub get_offset_col : ℕ → ℕ
get_offset_col offset = u8 ((offset - get_offset_row offset * 2 * max_cols) / 2)

-- `for (i = 1; i < MAX_ROWS; i++)`: the rounds that are left, and `i`.
pub move_lines : ℕ → ℕ → ℕ → Mem → Mem
move_lines zero i buff m = m
move_lines (suc left) i buff m =
    move_lines left (i + 1) buff
      (memcpy (get_offset 0 (i - 1) + buff) (get_offset 0 i + buff) (max_cols * 2) m).1

-- `for (i = 0; i < MAX_COLS*2; i++) last_line[i] = …`, over cells of two bytes.
pub blank_cells : ℕ → ℕ → ℕ → ℕ → Mem → Mem
blank_cells zero i last_line cell m = m
blank_cells (suc left) i last_line cell m =
    blank_cells left (i + 1) last_line cell (store16 m (last_line + 2 * i) cell)

-- The two loops of `terminal_initialize`: `x` within a row, and `y` over the rows.
pub clear_row : ℕ → ℕ → ℕ → ℕ → ℕ → Mem → Mem
clear_row zero x y buff cell m = m
clear_row (suc left) x y buff cell m =
    clear_row left (x + 1) y buff cell (store16 m (buff + 2 * (y * max_cols + x)) cell)

pub clear_rows : ℕ → ℕ → ℕ → ℕ → Mem → Mem
clear_rows zero y buff cell m = m
clear_rows (suc left) y buff cell m =
    clear_rows left (y + 1) buff cell (clear_row max_cols 0 y buff cell m)

module _ {Dev : Type 0} where
  pub handle_scrolling : ℕ → Kernel Dev → ℕ × Kernel Dev
  handle_scrolling cursor_offset k =
      if ltb cursor_offset (max_rows * max_cols * 2) then (cursor_offset, k) else (
        u16 (cursor_offset - 2 * max_cols),
        record k {
          mem =
              blank_cells (max_cols * 2) 0 (get_offset 0 (max_rows - 1) + k.t_buff)
                (vga_entry b' ' k.t_color) (move_lines (max_rows - 1) 1 k.t_buff k.mem);
        },
      )

module _ {Dev : Type 0} (hw : Ports Dev) where
  pub get_cursor_offset : Kernel Dev → ℕ × Kernel Dev
  get_cursor_offset k =
      let (lo, k₁) = inb hw reg_screen_data (outb hw reg_screen_ctrl 0x0F k) in
      let (hi, k₂) = inb hw reg_screen_data (outb hw reg_screen_ctrl 0x0E k₁) in
      (u16 (u16 (bit_or (bit_or 0 lo) (hi << 8)) * 2), k₂)

  pub set_cursor_offset : ℕ → Kernel Dev → Kernel Dev
  set_cursor_offset offset k =
      let half = offset / 2 in
      let k₁ =
        outb hw reg_screen_data (bit_and (half >> 8) 0xFF) (outb hw reg_screen_ctrl 0x0E k) in
      outb hw reg_screen_data (bit_and half 0xFF) (outb hw reg_screen_ctrl 0x0F k₁)

  -- What `print_char` does with a character at coordinates on the screen, before it scrolls.
  pub place_char : ℕ → ℕ → ℕ → Kernel Dev → ℕ × Kernel Dev
  place_char c row offset k =
      if c == b'\n'
      then (get_offset 0 (get_offset_row offset + 1), k)
      else if c == b'\t'
      then (get_offset (get_offset_col offset + 4) row, k)
      else (
        u16 (offset + 2),
        record k { mem = store16 k.mem (k.t_buff + 2 * (offset / 2)) (vga_entry c k.t_color) },
      )

  -- The code sets its argument `attr` where it is 0, and never reads it afterwards.
  pub print_char : ℕ → ℕ → ℕ → ℕ → Kernel Dev → ℕ × Kernel Dev
  print_char c col row attr k =
      if leb max_cols col || leb max_rows row
      then (
        get_offset col row,
        record k {
          mem =
              store16 k.mem (k.t_buff + 2 * (max_cols * max_rows - 1))
                (vga_entry b'E' k.t_err_color);
        },
      )
      else let (offset, k₁) = place_char c row (get_offset col row) k in
        let (offset', k₂) = handle_scrolling offset k₁ in (offset', set_cursor_offset offset' k₂)

  pub terminal_putchar : ℕ → Kernel Dev → Kernel Dev
  terminal_putchar c k =
      let (offset, k₁) = get_cursor_offset k in
      (print_char c (get_offset_col offset) (get_offset_row offset) k₁.t_color k₁).1

  -- `while (message[i] != 0)`; the list holds the characters before the terminating NUL.
  pub write_chars : List ℕ → ℕ → ℕ → Kernel Dev → Kernel Dev
  write_chars [] col row k = k
  write_chars (c ∷ message) col row k =
      let (offset, k₁) = print_char c col row k.t_color k in
      write_chars message (get_offset_col offset) (get_offset_row offset) k₁

  pub terminal_writestring_at : List ℕ → ℕ → ℕ → Kernel Dev → Kernel Dev
  terminal_writestring_at message col row k =
      if ltb col 128 && ltb row 128
      then write_chars message col row k
      else let (offset, k₁) = get_cursor_offset k in
        write_chars message (get_offset_col offset) (get_offset_row offset) k₁

  pub terminal_writestring : List ℕ → Kernel Dev → Kernel Dev
  terminal_writestring message k = terminal_writestring_at message (u8 minus_one) (u8 minus_one) k

  pub terminal_initialize : Kernel Dev → Kernel Dev
  terminal_initialize k =
      let color = vga_entry_color white blue in
      set_cursor_offset (get_offset 0 0) (record k {
        t_color = color;
        t_err_color = vga_entry_color white red;
        t_buff = video_mem_addr;
        mem = clear_rows max_rows 0 video_mem_addr (vga_entry b' ' color) k.mem;
      })

  unfoldable pub terminal_setcolor : VgaColor → VgaColor → Kernel Dev → Kernel Dev
  terminal_setcolor fg bg k = record k { t_color = vga_entry_color fg bg }

  -- `enable_cursor` and `disable_cursor` are static and not called.
  pub enable_cursor : ℕ → ℕ → Kernel Dev → Kernel Dev
  enable_cursor start end k =
      let (v, k₁) = inb hw reg_screen_data (outb hw reg_screen_ctrl 0x0A k) in
      let k₂ = outb hw reg_screen_data (bit_or (bit_and v 0xC0) start) k₁ in
      let (w, k₃) = inb hw reg_screen_data (outb hw reg_screen_ctrl 0x0B k₂) in
      outb hw reg_screen_data (bit_or (bit_and w 0xE0) end) k₃

  pub disable_cursor : Kernel Dev → Kernel Dev
  disable_cursor k = outb hw reg_screen_data 0x20 (outb hw reg_screen_ctrl 0x0A k)
