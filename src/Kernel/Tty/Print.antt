-- ===== src/Kernel/Tty/Print.antt =====
-- `print_char` and what stands on it, against a screen of 2000 cells with the cursor on one.
use mal_os.Prelude.{
  ℕ, ◌+◌, ◌-◌, ◌*◌, ◌/◌, ◌<◌, ◌≡◌, inl, inr, ◌==◌, ◌||◌, ltb, leb, if◌then◌else◌, arith, Bool-cases,
  ap, ap₂, ◌∙◌, subst, sym, false,
}
use mal_os.Libc.Memory.{Mem}
use mal_os.Kernel.Ports.{Ports}
use mal_os.Kernel.State.{Kernel}
use mal_os.Kernel.Vga.{vga_entry, store16}
use mal_os.Kernel.Tty.{
  get_offset, get_offset_row, get_offset_col, handle_scrolling, place_char, print_char,
  get_cursor_offset, set_cursor_offset, terminal_putchar,
}
use mal_os.Kernel.Tty.Position.{get_offset_lem, coordinates-get_offset}
use mal_os.Kernel.Tty.Scroll.{scrolled, handle_scrolling_lem}
use mal_os.Kernel.Tty.Cursor.{IsCrtc, cursor, set_cursor_offset_lem, get_cursor_offset_lem}

-- The cell after the character: the start of the next line, four cells on, or the next cell.
abbrev pub next_cell : ℕ → ℕ → ℕ
next_cell c cell =
    if c == b'\n' then (cell / 80 + 1) * 80 else if c == b'\t' then cell + 4 else cell + 1

-- Behind the screen the cursor goes back by a line.
abbrev pub settle : ℕ → ℕ
settle cell = if ltb cell 2000 then cell else cell - 80

module _ {Dev : Type 0} where
  -- A character that is neither a line feed nor a tab is put into the cell.
  abbrev pub drawn : ℕ → ℕ → Kernel Dev → Mem
  drawn c cell k =
      if c == b'\n' || c == b'\t'
      then k.mem
      else store16 k.mem (k.t_buff + 2 * cell) (vga_entry c k.t_color)

  -- The memory after the character, with the screen scrolled if the cursor ran off it.
  abbrev pub shown : ℕ → ℕ → Kernel Dev → Mem
  shown c cell k p =
      if ltb (next_cell c cell) 2000
      then drawn c cell k p
      else scrolled k.t_buff (vga_entry b' ' k.t_color) (drawn c cell k) p

module _ {Dev : Type 0} (hw : Ports Dev) where
  place_char_lem :
      (c cell : ℕ) (k : Kernel Dev)
      → cell < 2000
      → place_char hw c (cell / 80) (2 * cell) k
        ≡ (2 * next_cell c cell, record k { mem = drawn c cell k })
  unfolding place_char get_offset get_offset_row get_offset_col
  place_char_lem c cell k h = elim (Bool-cases (c == b'\n')) [
    | inl nl ↦ rw nl (ap (λ n. (n, k)) (omega arith))
    | inr nl ↦ rw nl (elim (Bool-cases (c == b'\t')) [
      | inl tab ↦ rw tab (ap (λ n. (n, k)) (omega arith))
      | inr tab ↦ rw tab (
          ap₂ (λ n a. (n, record k { mem = store16 k.mem (k.t_buff + a) (vga_entry c k.t_color) }))
            (omega arith) (omega arith))
    ])
  ]

  -- The end of `print_char`, from the offset behind the character on.
  abbrev scroll_and_set : ℕ → Kernel Dev → ℕ × Kernel Dev
  scroll_and_set offset k =
      let (offset', k') = handle_scrolling offset k in (offset', set_cursor_offset hw offset' k')

  print_char-scroll_and_set :
      (c col row attr : ℕ) (k : Kernel Dev)
      → col < 80
      → row < 25
      → let cell = row * 80 + col in
        print_char hw c col row attr k
        ≡ scroll_and_set (2 * next_cell c cell) (record k { mem = drawn c cell k })
  unfolding print_char
  print_char-scroll_and_set c col row attr k h g =
      let cell = row * 80 + col in
      let on_screen : (leb 80 col || leb 25 row) ≡ false = ground arith in
      let placed : place_char hw c row (get_offset col row) k
          ≡ (2 * next_cell c cell, record k { mem = drawn c cell k }) =
        ap₂ (λ r o. place_char hw c r o k) {x = row} {y = cell / 80} (omega arith)
          (get_offset_lem col row (omega arith) (omega arith))
        ∙ place_char_lem c cell k (omega arith) in
      rw on_screen (ap (λ (t : ℕ × Kernel Dev). scroll_and_set t.0 t.1) placed)

  module _ (crtc : IsCrtc hw) where
    -- What `print_char` is to leave, put as the cell behind the character and the memory.
    record Leaves (cell : ℕ) (m : Mem) (k : Kernel Dev) (out : ℕ × Kernel Dev) : Type 0 where
      offset : out.0 ≡ 2 * settle cell
      at : cursor crtc out.1 ≡ settle cell
      memory :
          (p : ℕ)
          → out.1.mem p
            ≡ (if ltb cell 2000 then m p else scrolled k.t_buff (vga_entry b' ' k.t_color) m p)
      rest : out.1 ≡ record k { dev = out.1.dev; mem = out.1.mem }

    scroll_and_set-Leaves :
        (cell : ℕ) (k : Kernel Dev)
        → cell < 2080
        → Leaves cell k.mem k (scroll_and_set (2 * cell) k)
    unfolding set_cursor_offset
    scroll_and_set-Leaves cell k h =
        let o = (handle_scrolling (2 * cell) k).0 in
        let k' = (handle_scrolling (2 * cell) k).1 in
        let d' = (set_cursor_offset hw o k').dev in
        elim (handle_scrolling_lem (2 * cell) k (omega arith)) [
          | inl (on, same, kept) ↦ record {
            offset = ground arith;
            at = (set_cursor_offset_lem crtc o k' (omega arith)).0 ∙ ground arith;
            memory = λ p. ap (λ (s : Kernel Dev). s.mem p) kept ∙ ground arith;
            rest = ap (λ (s : Kernel Dev). record s { dev = d'; mem = k'.mem }) kept;
          }
          | inr (off, back, kept, moved) ↦ record {
            offset = ground arith;
            at = (set_cursor_offset_lem crtc o k' (omega arith)).0 ∙ ground arith;
            memory = λ p. moved p ∙ ground arith;
            rest = ap (λ (s : Kernel Dev). record s { dev = d'; mem = k'.mem }) kept;
          }
        ]

    -- What a character at the given cell leaves.
    abbrev pub Printed : ℕ → ℕ → Kernel Dev → ℕ × Kernel Dev → Type 0
    Printed c cell k (offset, k') =
        (offset ≡ 2 * settle (next_cell c cell))
        × (cursor crtc k' ≡ settle (next_cell c cell))
        × ((p : ℕ) → k'.mem p ≡ shown c cell k p)
        × (k' ≡ record k { dev = k'.dev; mem = k'.mem })

    -- A character printed at coordinates on the screen is drawn there unless it is a line feed or a
    -- tab; the cursor goes to the cell behind it; if that lies behind the screen, the screen scrolls
    -- and the cursor goes back by a line. The offset of the cursor is returned. Nothing else but the
    -- devices changes, whatever the attribute given.
    pub print_char-Printed :
        (c col row attr : ℕ) (k : Kernel Dev)
        → col < 80
        → row < 25
        → Printed c (row * 80 + col) k (print_char hw c col row attr k)
    unfolding print_char
    print_char-Printed c col row attr k h g =
        let cell = row * 80 + col in
        let left =
          scroll_and_set-Leaves (next_cell c cell) (record k { mem = drawn c cell k })
            (ground arith) in
        subst (Printed c cell k) (sym (print_char-scroll_and_set c col row attr k h g))
          (left.offset, left.at, left.memory, left.rest)

    -- The same at the coordinates of an offset.
    pub Printed-at :
        (c cell offset attr : ℕ) (k : Kernel Dev)
        → cell < 2000
        → offset ≡ 2 * cell
        → Printed c cell k (print_char hw c (get_offset_col offset) (get_offset_row offset) attr k)
    Printed-at c cell offset attr k h there =
        let xy = coordinates-get_offset cell (omega arith) in
        let col = get_offset_col (2 * cell) in
        let row = get_offset_row (2 * cell) in
        let same_cell : row * 80 + col ≡ cell =
          omega (arith, xy, get_offset_lem col row (omega arith) (omega arith)) in
        subst (λ o. Printed c cell k (print_char hw c (get_offset_col o) (get_offset_row o) attr k))
          (sym there)
          (subst (λ n. Printed c n k (print_char hw c col row attr k)) same_cell
            (print_char-Printed c col row attr k (omega arith) (omega (arith, xy.2))))

    -- What a character does to a terminal whose cursor is on the screen.
    abbrev pub Shows : ℕ → Kernel Dev → Kernel Dev → Type 0
    Shows c k k' =
        (cursor crtc k' ≡ settle (next_cell c (cursor crtc k)))
        × ((p : ℕ) → k'.mem p ≡ shown c (cursor crtc k) k p)
        × (k' ≡ record k { dev = k'.dev; mem = k'.mem })

    -- With the cursor on the screen, `terminal_putchar` draws the character in the cursor's cell, or
    -- nothing for a line feed or a tab. The cursor goes to the next cell, for a line feed to the start
    -- of the next line and for a tab four cells on; if that lies behind the screen, the screen scrolls
    -- and the cursor goes back by a line. Nothing else but the devices changes.
    pub terminal_putchar-Shows :
        (c : ℕ) (k : Kernel Dev) → cursor crtc k < 2000 → Shows c k (terminal_putchar hw c k)
    unfolding terminal_putchar get_cursor_offset
    terminal_putchar-Shows c k h =
        let got = get_cursor_offset_lem crtc k in
        let k₁ = (get_cursor_offset hw k).1 in
        let printed =
          Printed-at c (cursor crtc k) (get_cursor_offset hw k).0 k₁.t_color k₁ h
            (omega (arith, got.0)) in
        (printed.1, printed.2, printed.3)
