-- ===== src/Kernel/Tty/Tests.antt =====
-- Runs of the terminal, and the theorems at concrete states.
use mal_os.Prelude.{ℕ, ◌+◌, ◌-◌, ◌*◌, ◌/◌, ◌≤◌, ◌<◌, ◌≡◌, refl, ◌⊎◌, arith}
use mal_os.Kernel.Vga.{vga_entry}
use mal_os.Kernel.Tty.{
  get_offset, get_cursor_offset, set_cursor_offset, handle_scrolling, print_char, place_char,
  terminal_putchar,
}
use mal_os.Kernel.Tty.Cursor.{cursor, DevOnly, get-set_cursor_offset}
use mal_os.Kernel.Tty.Scroll.{scrolled, handle_scrolling_lem}
use mal_os.Kernel.Tty.Print.{Shows, terminal_putchar-Shows}
use mal_os.Kernel.Tty.Sample.{ports, ports-IsCrtc, full}

letter_drawn : (print_char ports b'A' 3 2 0 full).1.mem (0xb8000 + 326) ≡ b'A'
unfolding print_char place_char handle_scrolling set_cursor_offset get_offset vga_entry
letter_drawn = refl

cursor_read : (get_cursor_offset ports full).0 ≡ 3998
unfolding get_cursor_offset
cursor_read = refl

get-set_cursor_offset_example :
    let (offset', k') = get_cursor_offset ports (set_cursor_offset ports 2001 full) in
    (offset' ≡ 2 * (2001 / 2)) × (cursor ports-IsCrtc k' ≡ 2001 / 2) × DevOnly ports-IsCrtc full k'
get-set_cursor_offset_example = get-set_cursor_offset ports-IsCrtc 2001 full (omega arith)

handle_scrolling_lem_example :
    let (offset', k') = handle_scrolling 4000 full in
    ((4000 < 4000) × (offset' ≡ 4000) × (k' ≡ full))
    ⊎ ((4000 ≤ 4000)
        × (offset' ≡ 4000 - 160)
        × (k' ≡ record full { mem = k'.mem })
        × ((p : ℕ) → k'.mem p ≡ scrolled full.t_buff (vga_entry b' ' full.t_color) full.mem p))
handle_scrolling_lem_example = handle_scrolling_lem 4000 full (omega arith)

-- The cursor stands on the last cell, so the screen scrolls.
terminal_putchar-Shows_example :
    Shows ports ports-IsCrtc b'A' full (terminal_putchar ports b'A' full)
terminal_putchar-Shows_example = terminal_putchar-Shows ports ports-IsCrtc b'A' full (omega arith)
