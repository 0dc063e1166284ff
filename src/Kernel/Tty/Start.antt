-- ===== src/Kernel/Tty/Start.antt =====
-- The terminal as `terminal_initialize` leaves it.
use mal_os.Prelude.{
  ℕ, zero, suc, ◌+◌, ◌-◌, ◌*◌, ◌≡◌, refl, ◌&&◌, ltb, leb, if◌then◌else◌, arith, ap, ap₂, fun_ext,
}
use mal_os.Libc.Memory.{Mem}
use mal_os.Kernel.Ports.{Ports}
use mal_os.Kernel.State.{Kernel}
use mal_os.Kernel.Vga.{vga_entry, vga_entry_color, store16, max_cols}
use mal_os.Kernel.Tty.{get_offset, clear_row, clear_rows, terminal_initialize, set_cursor_offset}
use mal_os.Kernel.Tty.Scroll.{cell_byte}
use mal_os.Kernel.Tty.Screen.{Screen, view, blank, two_bytes, vga_entry-lt}
use mal_os.Kernel.Tty.Cursor.{IsCrtc, cursor, set_cursor_offset_lem}

-- The bytes from `lo` up to `hi`, counted from `buff`, hold the cell.
abbrev pub cleared : ℕ → ℕ → ℕ → ℕ → Mem → Mem
cleared lo hi buff cell m p =
    if leb (buff + lo) p && ltb p (buff + hi) then cell_byte cell (p - buff) else m p

clear_row_lem :
    (left x y buff cell : ℕ) (m : Mem) (p : ℕ)
    → clear_row left x y buff cell m p
      ≡ cleared (2 * (y * 80 + x)) (2 * (y * 80 + x + left)) buff cell m p
unfolding clear_row
clear_row_lem zero x y buff cell m p = ground arith
clear_row_lem (suc left) x y buff cell m p = ground (
  arith,
  clear_row_lem left (x + 1) y buff cell (store16 m (buff + 2 * (y * max_cols + x)) cell) p,
)

clear_rows_lem :
    (left y buff cell : ℕ) (m : Mem) (p : ℕ)
    → clear_rows left y buff cell m p ≡ cleared (160 * y) (160 * (y + left)) buff cell m p
unfolding clear_rows
clear_rows_lem zero y buff cell m p = ground arith
clear_rows_lem (suc left) y buff cell m p = ground (
  arith,
  clear_rows_lem left (y + 1) buff cell (clear_row 80 0 y buff cell m) p,
  clear_row_lem 80 0 y buff cell m p,
)

module _ {Dev : Type 0} {hw : Ports Dev} (crtc : IsCrtc hw) where
  at_origin : (k : Kernel Dev) → cursor crtc (set_cursor_offset hw (get_offset 0 0) k) ≡ 0
  unfolding get_offset
  at_origin k = (set_cursor_offset_lem crtc (get_offset 0 0) k (omega arith)).0

  cursor-terminal_initialize : (k : Kernel Dev) → cursor crtc (terminal_initialize hw k) ≡ 0
  unfolding terminal_initialize
  cursor-terminal_initialize k = at_origin _

  -- `terminal_initialize` puts the cursor on the first cell, fills exactly the 2000 cells of the
  -- screen with blanks in white on blue, sets the two colours and the buffer's address, and changes
  -- nothing else but the devices.
  pub terminal_initialize_lem :
      (k : Kernel Dev)
      → let k' = terminal_initialize hw k in
        (cursor crtc k' ≡ 0)
        × ((p : ℕ) → k'.mem p ≡ cleared 0 4000 0xb8000 (vga_entry b' ' 0x1F) k.mem p)
        × (k' ≡ record k {
          dev = k'.dev;
          mem = k'.mem;
          t_color = 0x1F;
          t_err_color = 0x4F;
          t_buff = 0xb8000;
        })
  unfolding terminal_initialize vga_entry_color set_cursor_offset
  terminal_initialize_lem k = (
    cursor-terminal_initialize k,
    λ p. clear_rows_lem 25 0 0xb8000 (vga_entry b' ' 0x1F) k.mem p,
    refl,
  )

  pub view-terminal_initialize :
      (k : Kernel Dev) → view crtc (terminal_initialize hw k) ≡ blank 0x1F
  view-terminal_initialize k =
      let k' = terminal_initialize hw k in
      let (at, memory, rest) = terminal_initialize_lem k in
      let cell = vga_entry b' ' 0x1F in
      let buff : k'.t_buff ≡ 0xb8000 = ap (λ z. z.t_buff) rest in
      ap₂ {A = ℕ → ℕ} {B = ℕ} (λ cells at. screen cells at)
        (fun_ext λ n. ground (
          arith,
          memory (0xb8000 + 2 * n),
          memory (0xb8000 + 2 * n + 1),
          two_bytes cell (vga_entry-lt b' ' 0x1F),
          ap k'.mem {x = k'.t_buff + 2 * n} {y = 0xb8000 + 2 * n} (omega arith),
          ap k'.mem {x = k'.t_buff + 2 * n + 1} {y = 0xb8000 + 2 * n + 1} (omega arith),
        ))
        at
    where
      screen : (ℕ → ℕ) → ℕ → Screen
      screen cells at = record { cells = cells; at = at }
