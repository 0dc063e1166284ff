-- ===== src/Kernel/Tty/Text.antt =====
-- Whole strings: `terminal_writestring_at` and `terminal_writestring`.
use mal_os.Prelude.{
  ℕ, ◌+◌, ◌*◌, ◌<◌, ◌≡◌, refl, ◌∙◌, ◌&&◌, ltb, List, [], ◌∷◌, arith, ap, sym, subst, true,
}
use mal_os.Kernel.Ports.{Ports}
use mal_os.Kernel.State.{Kernel}
use mal_os.Kernel.Tty.{
  get_offset_row, get_offset_col, get_cursor_offset, write_chars, print_char,
  terminal_writestring_at, terminal_writestring,
}
use mal_os.Kernel.Tty.Cursor.{IsCrtc, cursor, DevOnly, get_cursor_offset_lem}
use mal_os.Kernel.Tty.Print.{
  next_cell, settle, shown, Shows, Printed, Printed-at, print_char-Printed,
}

module _ {Dev : Type 0} {hw : Ports Dev} (crtc : IsCrtc hw) where
  -- The characters are shown one after the other, each at the cursor that the one before it left.
  abbrev pub Writes : List ℕ → Kernel Dev → Kernel Dev → Type 0
  Writes [] k k' = (cursor crtc k' ≡ cursor crtc k) × DevOnly crtc k k'
  Writes (c ∷ s) k k' = (k₁ : Kernel Dev) × Shows hw crtc c k k₁ × Writes s k₁ k'

  pub settle-lt : (c cell : ℕ) → cell < 2000 → settle (next_cell c cell) < 2000
  settle-lt c cell h = ground arith

  -- However many characters are shown, the cursor stays on the screen.
  pub Writes-on_screen :
      (s : List ℕ) (k k' : Kernel Dev)
      → cursor crtc k < 2000
      → Writes s k k'
      → cursor crtc k' < 2000
  Writes-on_screen [] k k' h w = omega (arith, w.0)
  Writes-on_screen (c ∷ s) k k' h (k₁, shows, rest) =
      Writes-on_screen s k₁ k' (subst (λ n. n < 2000) (sym shows.0) (settle-lt c (cursor crtc k) h))
        rest

  -- `z` with the devices and the memory of `k'`.
  abbrev put_screen : Kernel Dev → Kernel Dev → Kernel Dev
  put_screen k' z = record z { dev = k'.dev; mem = k'.mem }

  onto_screen : (k k' : Kernel Dev) → DevOnly crtc k k' → k' ≡ put_screen k' k
  onto_screen k k' e = e ∙ ap (λ m. put_screen (record k' { mem = m }) k) (sym (ap (λ z. z.mem) e))

  -- The devices and the memory are all that changes.
  pub Writes-screen_only :
      (s : List ℕ) (k k' : Kernel Dev)
      → Writes s k k'
      → k' ≡ record k { dev = k'.dev; mem = k'.mem }
  Writes-screen_only [] k k' (at, rest) = onto_screen k k' rest
  Writes-screen_only (c ∷ s) k k' (k₁, (at, memory, e), rest) =
      Writes-screen_only s k₁ k' rest ∙ ap (put_screen k') e

  -- The loop, entered at the coordinates of an offset.
  write_chars-Writes :
      (s : List ℕ) (offset : ℕ) (k : Kernel Dev)
      → cursor crtc k < 2000
      → offset ≡ 2 * cursor crtc k
      → Writes s k (write_chars hw s (get_offset_col offset) (get_offset_row offset) k)
  unfolding write_chars
  write_chars-Writes [] offset k h there = (refl, refl)
  write_chars-Writes (c ∷ s) offset k h there =
      let col = get_offset_col offset in
      let row = get_offset_row offset in
      let out = print_char hw c col row k.t_color k in
      let printed = Printed-at hw crtc c (cursor crtc k) offset k.t_color k h there in
      let on_screen : cursor crtc out.1 < 2000 =
        subst (λ n. n < 2000) (sym printed.1) (settle-lt c (cursor crtc k) h) in
      (
        out.1,
        (printed.1, printed.2, printed.3),
        write_chars-Writes s out.0 out.1 on_screen (omega (arith, printed.0, printed.1)),
      )

  -- What is shown does not depend on the devices but for the cursor.
  Writes-devices :
      (s : List ℕ) (d : Dev) (k k' : Kernel Dev)
      → cursor crtc (record k { dev = d }) ≡ cursor crtc k
      → Writes s (record k { dev = d }) k'
      → Writes s k k'
  Writes-devices [] d k k' e (at, rest) = (at ∙ e, rest)
  Writes-devices (c ∷ s) d k k' e (k₁, (at, memory, rest), more) = (
    k₁,
    (at ∙ ap (λ n. settle (next_cell c n)) e, λ p. memory p ∙ ap (λ n. shown c n k p) e, rest),
    more,
  )

  at_cursor :
      (s : List ℕ) (k : Kernel Dev)
      → cursor crtc k < 2000
      → let (offset, k₁) = get_cursor_offset hw k in
        Writes s k (write_chars hw s (get_offset_col offset) (get_offset_row offset) k₁)
  unfolding get_cursor_offset
  at_cursor s k h =
      let got = get_cursor_offset_lem crtc k in
      let k₁ = (get_cursor_offset hw k).1 in
      Writes-devices s k₁.dev k _ got.1 (
        write_chars-Writes s (get_cursor_offset hw k).0 k₁ (omega (arith, got.1))
          (omega (arith, got.0, got.1)))

  -- `terminal_writestring` shows the characters one after the other from the cursor on, as that many
  -- calls of `terminal_putchar` do, and leaves the cursor on the screen.
  pub terminal_writestring-Writes :
      (s : List ℕ) (k : Kernel Dev)
      → cursor crtc k < 2000
      → let k' = terminal_writestring hw s k in Writes s k k' × (cursor crtc k' < 2000)
  unfolding terminal_writestring terminal_writestring_at
  terminal_writestring-Writes s k h = let w = at_cursor s k h in (w, Writes-on_screen s k _ h w)

  -- `terminal_writestring_at` with coordinates on the screen shows the first character there,
  -- wherever the cursor is, and the others from the cursor that this leaves.
  pub terminal_writestring_at-Printed :
      (c : ℕ) (s : List ℕ) (col row : ℕ) (k : Kernel Dev)
      → col < 80
      → row < 25
      → let k' = terminal_writestring_at hw (c ∷ s) col row k in
        (out : ℕ × Kernel Dev) × Printed hw crtc c (row * 80 + col) k out × Writes s out.1 k'
  unfolding terminal_writestring_at write_chars
  terminal_writestring_at-Printed c s col row k h g =
      let on : (ltb col 128 && ltb row 128) ≡ true = ground arith in
      let out = print_char hw c col row k.t_color k in
      let printed = print_char-Printed hw crtc c col row k.t_color k h g in
      let on_screen : cursor crtc out.1 < 2000 =
        subst (λ n. n < 2000) (sym printed.1) (settle-lt c (row * 80 + col) (omega arith)) in
      rw on (
        out,
        printed,
        write_chars-Writes s out.0 out.1 on_screen (omega (arith, printed.0, printed.1)),
      )
