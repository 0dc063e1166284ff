-- ===== src/Kernel/Tty/Screen.antt =====
-- What a text screen promises, without the memory and the registers, and that the terminal keeps it.
use mal_os.Prelude.{
  ℕ, ◌+◌, ◌-◌, ◌*◌, ◌^◌, ◌<◌, ◌≡◌, refl, ◌∙◌, ap, ap₂, sym, subst, fun_ext, ◌==◌, ◌||◌, ltb,
  if◌then◌else◌, Bool-cases, inl, inr, true, false, List, [], ◌∷◌, ◌++◌, u8, ◌>>◌, arith,
}
use mal_os.Libc.Memory.{Mem}
use mal_os.Kernel.Ports.{Ports}
use mal_os.Kernel.State.{Kernel}
use mal_os.Kernel.Vga.{vga_entry}
use mal_os.Kernel.Tty.Scroll.{scrolled}
use mal_os.Kernel.Tty.Cursor.{IsCrtc, cursor}
use mal_os.Kernel.Tty.Print.{next_cell, drawn, shown, Shows}
use mal_os.Kernel.Tty.Text.{Writes, settle-lt}

-- 25 lines of 80 cells, and the cell with the cursor.
pub record Screen : Type 0 where
  pub cells : ℕ → ℕ
  pub at : ℕ

abbrev pub draw : ℕ → ℕ → Screen → Screen
draw color c s = record s {
  cells = λ n.
      if c == b'\n' || c == b'\t'
      then s.cells n
      else if n == s.at
      then vga_entry c color
      else s.cells n;
}

-- Every line goes up by one, and the last one is blank.
abbrev pub scroll : ℕ → Screen → Screen
scroll color s = record {
  cells = λ n.
      if ltb n 1920
      then s.cells (n + 80)
      else if ltb n 2000
      then vga_entry b' ' color
      else s.cells n;
  at = s.at - 80;
}

-- A character typed in a colour.
abbrev pub type_char : ℕ → ℕ → Screen → Screen
type_char color c s =
    let s₁ : Screen = record (draw color c s) { at = next_cell c s.at } in
    if ltb s₁.at 2000 then s₁ else scroll color s₁

-- Blank from its first cell to its last, with the cursor on the first.
abbrev pub blank : ℕ → Screen
blank color = record { cells = λ n. if ltb n 2000 then vga_entry b' ' color else 0; at = 0 }

unfoldable pub type_text : ℕ → List ℕ → Screen → Screen
type_text color [] s = s
type_text color (c ∷ text) s = type_text color text (type_char color c s)

pub type_text-append :
    (color : ℕ) (a b : List ℕ) (s : Screen)
    → type_text color (a ++ b) s ≡ type_text color b (type_text color a s)
unfolding type_text
type_text-append color [] b s = refl
type_text-append color (c ∷ a) b s = type_text-append color a b (type_char color c s)

abbrev pub load16 : Mem → ℕ → ℕ
load16 m a = m a + 256 * m (a + 1)

pub vga_entry-lt : (c color : ℕ) → vga_entry c color < 2 ^ 16
unfolding vga_entry
vga_entry-lt c color = omega arith

pub two_bytes : (v : ℕ) → v < 2 ^ 16 → u8 v + 256 * u8 (v >> 8) ≡ v
two_bytes v h = omega arith

-- A cell of the memory of a screen that has scrolled.
load16-scrolled :
    (buff blank n : ℕ) (m : Mem)
    → blank < 2 ^ 16
    → n < 2000
    → load16 (scrolled buff blank m) (buff + 2 * n)
      ≡ (if ltb n 1920 then load16 m (buff + 2 * (n + 80)) else blank)
load16-scrolled buff blank n m h g = elim (Bool-cases (ltb n 1920)) [
  | inl up ↦ rw up (
      ap₂ (λ a b. a + 256 * b) {x = scrolled buff blank m (buff + 2 * n)}
        {y = m (buff + 2 * (n + 80))}
        (ground (arith, ap m {x = buff + 2 * n + 160} {y = buff + 2 * (n + 80)} (omega arith)))
        (ground
          (arith, ap m {x = buff + 2 * n + 1 + 160} {y = buff + 2 * (n + 80) + 1} (omega arith))))
  | inr last ↦ rw last (ground (arith, two_bytes blank h))
]

module _ {Dev : Type 0} where
  -- The cells in the kernel's memory.
  abbrev pub cells_of : Kernel Dev → Mem → ℕ → ℕ
  cells_of k m n = if ltb n 2000 then load16 m (k.t_buff + 2 * n) else 0

  load16-drawn :
      (c cell n : ℕ) (k : Kernel Dev)
      → load16 (drawn c cell k) (k.t_buff + 2 * n)
        ≡ (draw k.t_color c
              (record { cells = λ n. load16 k.mem (k.t_buff + 2 * n); at = cell })).cells
            n
  load16-drawn c cell n k = elim (Bool-cases (c == b'\n' || c == b'\t')) [
    | inl blank ↦ rw blank refl
    | inr plain ↦
        rw plain (ground (arith, two_bytes (vga_entry c k.t_color) (vga_entry-lt c k.t_color)))
  ]

  -- The cells after a character, in each of the two cases.
  cells-stay :
      (c cell n : ℕ) (k : Kernel Dev)
      → ltb (next_cell c cell) 2000 ≡ true
      → cell < 2000
      → cells_of k (shown c cell k) n
        ≡ (draw k.t_color c (record { cells = cells_of k k.mem; at = cell })).cells n
  cells-stay c cell n k stays h = rw stays (elim (Bool-cases (ltb n 2000)) [
    | inl on ↦ rw on (
        load16-drawn c cell n k
        ∙ ap (λ b. if c == b'\n' || c == b'\t' then load16 k.mem (k.t_buff + 2 * n) else b)
            (ground arith))
    | inr off ↦ rw off (ground arith)
  ])

  cells-scroll :
      (c cell n : ℕ) (k : Kernel Dev)
      → ltb (next_cell c cell) 2000 ≡ false
      → cell < 2000
      → cells_of k (shown c cell k) n
        ≡ (scroll k.t_color
              (draw k.t_color c (record { cells = cells_of k k.mem; at = cell }))).cells
            n
  cells-scroll c cell n k scrolls h =
      let on = load16-drawn c cell (n + 80) k in
      let lt = vga_entry-lt b' ' k.t_color in
      rw scrolls (
        ground
          (arith, load16-scrolled k.t_buff (vga_entry b' ' k.t_color) n (drawn c cell k) lt, on))

module _ {Dev : Type 0} {hw : Ports Dev} (crtc : IsCrtc hw) where
  -- The screen of a kernel.
  abbrev pub view : Kernel Dev → Screen
  view k = record { cells = cells_of k k.mem; at = cursor crtc k }

  abbrev screen : (ℕ → ℕ) → ℕ → Screen
  screen cells at = record { cells = cells; at = at }

  view-Shows :
      (c : ℕ) (k k' : Kernel Dev)
      → cursor crtc k < 2000
      → Shows hw crtc c k k'
      → view k' ≡ type_char k.t_color c (view k)
  view-Shows c k k' h (at, memory, rest) =
      let cell = cursor crtc k in
      let buff : k'.t_buff ≡ k.t_buff = ap (λ z. z.t_buff) rest in
      let load : (n : ℕ) → cells_of k' k'.mem n ≡ cells_of k (shown c cell k) n = λ n. ground (
        arith,
        memory (k.t_buff + 2 * n),
        memory (k.t_buff + 2 * n + 1),
        ap k'.mem {x = k'.t_buff + 2 * n} {y = k.t_buff + 2 * n} (omega arith),
        ap k'.mem {x = k'.t_buff + 2 * n + 1} {y = k.t_buff + 2 * n + 1} (omega arith),
      ) in
      elim (Bool-cases (ltb (next_cell c cell) 2000)) [
        | inl stays ↦
            rw stays
              (ap₂ screen (fun_ext λ n. load n ∙ cells-stay c cell n k stays h) (at ∙ ground arith))
        | inr scrolls ↦ rw scrolls (
            ap₂ screen (fun_ext λ n. load n ∙ cells-scroll c cell n k scrolls h)
              (at ∙ ground arith))
      ]

  -- Whatever has written characters one after the other has typed them on the screen.
  pub view-Writes :
      (s : List ℕ) (k k' : Kernel Dev)
      → cursor crtc k < 2000
      → Writes crtc s k k'
      → view k' ≡ type_text k.t_color s (view k)
  unfolding type_text
  view-Writes [] k k' h (at, rest) = ap₂ screen (ap (λ z. cells_of z z.mem) rest) at
  view-Writes (c ∷ s) k k' h (k₁, shows, writes) =
      let on = subst (λ n. n < 2000) (sym shows.0) (settle-lt crtc c (cursor crtc k) h) in
      view-Writes s k₁ k' on writes
      ∙ ap₂ (λ color z. type_text color s z) (ap (λ z. z.t_color) shows.2)
          (view-Shows c k k₁ h shows)
