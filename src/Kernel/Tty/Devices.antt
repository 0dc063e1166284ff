-- ===== src/Kernel/Tty/Devices.antt =====
-- What the terminal leaves alone in the devices: whatever its ports do not reach.
use mal_os.Prelude.{arith, ap, ℕ, ◌≡◌, refl, ◌∙◌, Bool-cases, inl, inr, ◌||◌, leb}
use mal_os.Kernel.Ports.{Ports}
use mal_os.Kernel.State.{Kernel}
use mal_os.Kernel.Tty.{
  get_offset, handle_scrolling, place_char, print_char, get_cursor_offset, set_cursor_offset,
  terminal_putchar,
}

-- `view` is a part of the devices that the ports of the CRT controller do not reach.
pub record IsApart {Dev : Type 0} (hw : Ports Dev) {A : Type 0} (view : Dev → A) : Type 0 where
  pub select : (d : Dev) (v : ℕ) → view (hw.out8 0x3d4 v d) ≡ view d
  pub write : (d : Dev) (v : ℕ) → view (hw.out8 0x3d5 v d) ≡ view d
  pub read : (d : Dev) → view (hw.in8 0x3d5 d).1 ≡ view d

module _ {Dev : Type 0} {hw : Ports Dev} {A : Type 0} {view : Dev → A}
    (apart : IsApart hw view) where
  set_cursor_offset-apart :
      (offset : ℕ) (k : Kernel Dev) → view (set_cursor_offset hw offset k).dev ≡ view k.dev
  unfolding set_cursor_offset
  set_cursor_offset-apart offset k =
      apart.write _ _ ∙ apart.select _ _ ∙ apart.write _ _ ∙ apart.select _ _

  get_cursor_offset-apart : (k : Kernel Dev) → view (get_cursor_offset hw k).1.dev ≡ view k.dev
  unfolding get_cursor_offset
  get_cursor_offset-apart k = apart.read _ ∙ apart.select _ _ ∙ apart.read _ ∙ apart.select _ _

  handle_scrolling-dev : (offset : ℕ) (k : Kernel Dev) → (handle_scrolling offset k).1.dev ≡ k.dev
  unfolding handle_scrolling
  handle_scrolling-dev offset k = ground arith

  place_char-dev :
      (c row offset : ℕ) (k : Kernel Dev) → (place_char hw c row offset k).1.dev ≡ k.dev
  unfolding place_char
  place_char-dev c row offset k = ground arith

  print_char-apart :
      (c col row attr : ℕ) (k : Kernel Dev)
      → view (print_char hw c col row attr k).1.dev ≡ view k.dev
  unfolding print_char
  print_char-apart c col row attr k =
      let placed = place_char hw c row (get_offset col row) k in
      let scrolled = handle_scrolling placed.0 placed.1 in
      elim (Bool-cases (leb 80 col || leb 25 row)) [
        | inl off ↦ rw off refl
        | inr on ↦ rw on (
            set_cursor_offset-apart scrolled.0 scrolled.1
            ∙ ap view (
                handle_scrolling-dev placed.0 placed.1
                ∙ place_char-dev c row (get_offset col row) k))
      ]

  pub terminal_putchar-apart :
      (c : ℕ) (k : Kernel Dev) → view (terminal_putchar hw c k).dev ≡ view k.dev
  unfolding terminal_putchar
  terminal_putchar-apart c k = print_char-apart c _ _ _ _ ∙ get_cursor_offset-apart k
