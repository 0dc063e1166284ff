-- ===== src/Kernel/Tty/Scroll.antt =====
-- What `handle_scrolling` does to the screen.
use mal_os.Prelude.{
  ℕ, zero, suc, ◌+◌, ◌-◌, ◌*◌, ◌%◌, ◌^◌, ◌≤◌, ◌<◌, ◌≡◌, refl, ◌⊎◌, inl, inr, ◌==◌, ◌&&◌, ltb, leb,
  if◌then◌else◌, u8, ◌>>◌, arith, Bool-cases,
}
use mal_os.Libc.Memory.{Mem, memcpy}
use mal_os.Libc.Memory.Copy.{memcpy-IsCopy}
use mal_os.Kernel.State.{Kernel}
use mal_os.Kernel.Vga.{vga_entry, max_cols, max_rows, store16}
use mal_os.Kernel.Tty.{get_offset, move_lines, blank_cells, handle_scrolling}
use mal_os.Kernel.Tty.Position.{get_offset_lem}

-- One of the two bytes of a cell.
abbrev pub cell_byte : ℕ → ℕ → ℕ
cell_byte cell i = if i % 2 == 0 then u8 cell else u8 (cell >> 8)

-- A line is copied over the one above it.
move_line :
    (i buff : ℕ) (m : Mem) (p : ℕ)
    → 1 ≤ i
    → i < 256
    → (memcpy (get_offset 0 (i - 1) + buff) (get_offset 0 i + buff) (max_cols * 2) m).1 p
      ≡ (if leb (buff + 160 * (i - 1)) p && ltb p (buff + 160 * i) then m (p + 160) else m p)
move_line i buff m p h g =
    rw (get_offset_lem 0 (i - 1) (omega arith) (omega arith), get_offset_lem 0 i (omega arith) g)
      (ground (
        arith,
        (memcpy-IsCopy (2 * ((i - 1) * 80 + 0) + buff) (2 * (i * 80 + 0) + buff) 160 m
              (inl (omega arith))).1
            p,
      ))

move_lines_lem :
    (left i buff : ℕ) (m : Mem) (p : ℕ)
    → 1 ≤ i
    → i + left ≤ 256
    → move_lines left i buff m p ≡ (
        if leb (buff + 160 * (i - 1)) p && ltb p (buff + 160 * (i + left - 1))
        then m (p + 160)
        else m p)
unfolding move_lines
move_lines_lem zero i buff m p g h = ground arith
move_lines_lem (suc left) i buff m p g h =
    let m' = (memcpy (get_offset 0 (i - 1) + buff) (get_offset 0 i + buff) (max_cols * 2) m).1 in
    ground (
      arith,
      move_lines_lem left (i + 1) buff m' p (omega arith) (omega arith),
      move_line i buff m p g (omega arith),
      move_line i buff m (p + 160) g (omega arith),
    )

blank_cells_lem :
    (left i line cell : ℕ) (m : Mem) (p : ℕ)
    → blank_cells left i line cell m p ≡ (
        if leb (line + 2 * i) p && ltb p (line + 2 * (i + left))
        then cell_byte cell (p - line)
        else m p)
unfolding blank_cells
blank_cells_lem zero i line cell m p = ground arith
blank_cells_lem (suc left) i line cell m p =
    ground (arith, blank_cells_lem left (i + 1) line cell (store16 m (line + 2 * i) cell) p)

-- The memory of a screen at `buff` after scrolling: each line holds what the one below it held,
-- and two lines' worth of cells from the last line on are blank.
abbrev pub scrolled : ℕ → ℕ → Mem → Mem
scrolled buff cell m p =
    if leb (buff + 3840) p && ltb p (buff + 4160)
    then cell_byte cell (p - (buff + 3840))
    else if leb buff p && ltb p (buff + 3840)
    then m (p + 160)
    else m p

scroll_memory :
    (buff cell : ℕ) (m : Mem) (p : ℕ)
    → blank_cells 160 0 (get_offset 0 24 + buff) cell (move_lines 24 1 buff m) p
      ≡ scrolled buff cell m p
scroll_memory buff cell m p = rw (get_offset_lem 0 24 (omega arith) (omega arith)) (
    ground (
      arith,
      blank_cells_lem 160 0 (2 * (24 * 80 + 0) + buff) cell (move_lines 24 1 buff m) p,
      move_lines_lem 24 1 buff m p (omega arith) (omega arith),
    ))

module _ {Dev : Type 0} where
  -- An offset on the screen is left alone, and so is the rest of the state. Past the screen the
  -- offset goes back by a line, and nothing but the memory changes: each of the first 24 lines
  -- takes the contents of the next, the 80 cells of the last line and the 80 cells behind the
  -- screen become blanks in the current colour, and every other byte stays.
  pub handle_scrolling_lem :
      (offset : ℕ) (k : Kernel Dev)
      → offset < 2 ^ 16
      → let (offset', k') = handle_scrolling offset k in
        ((offset < 4000) × (offset' ≡ offset) × (k' ≡ k))
        ⊎ ((4000 ≤ offset)
            × (offset' ≡ offset - 160)
            × (k' ≡ record k { mem = k'.mem })
            × ((p : ℕ) → k'.mem p ≡ scrolled k.t_buff (vga_entry b' ' k.t_color) k.mem p))
  unfolding handle_scrolling
  handle_scrolling_lem offset k h = elim (Bool-cases (ltb offset (max_rows * max_cols * 2))) [
    | inl on ↦ rw on (inl (ground arith, refl, refl))
    | inr off ↦ rw off (inr (ground arith, ground arith, refl, scroll_memory _ _ _))
  ]
