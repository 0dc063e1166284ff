-- ===== src/Kernel/Tty/Position.antt =====
-- Coordinates and byte offsets of the screen's cells.
use mal_os.Prelude.{ℕ, ◌+◌, ◌*◌, ◌/◌, ◌<◌, ◌≡◌, arith}
use mal_os.Kernel.Vga.{max_cols}
use mal_os.Kernel.Tty.{get_offset, get_offset_row, get_offset_col}

-- `get_offset` of coordinates cut to bytes never wraps: it is twice the number of the cell.
pub get_offset_lem :
    (col row : ℕ) → col < 256 → row < 256 → get_offset col row ≡ 2 * (row * max_cols + col)
unfolding get_offset
get_offset_lem col row h g = omega arith

-- Coordinates with a column on the screen are had back from their offset, for every row that a
-- byte can hold.
pub get_offset_coordinates :
    (col row : ℕ)
    → col < max_cols
    → row < 256
    → (get_offset_row (get_offset col row) ≡ row) × (get_offset_col (get_offset col row) ≡ col)
unfolding get_offset get_offset_row get_offset_col
get_offset_coordinates col row h g = omega arith

-- An even offset of a row that a byte can hold is had back from its coordinates, and these have
-- their column on the screen.
pub coordinates-get_offset :
    (cell : ℕ)
    → cell < 256 * max_cols
    → let offset = 2 * cell in
      (get_offset (get_offset_col offset) (get_offset_row offset) ≡ offset)
      × (get_offset_col offset < max_cols)
      × (get_offset_row offset ≡ cell / max_cols)
unfolding get_offset get_offset_row get_offset_col
coordinates-get_offset cell h = omega arith
