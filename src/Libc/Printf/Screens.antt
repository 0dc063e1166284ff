-- ===== src/Libc/Printf/Screens.antt =====
-- `printf`, `puts` and `terminal_writestring` as typing on a screen.
use mal_os.Prelude.{
  ℕ, ◌+◌, ◌≤◌, ◌<◌, ◌≡◌, refl, ◌∙◌, ap, ap₂, sym, some, List, [], ◌∷◌, ◌++◌, length, u8, ◌⊎◌, map,
  All, arith,
}
use mal_os.Kernel.Ports.{Ports}
use mal_os.Kernel.State.{Kernel}
use mal_os.Kernel.Tty.{terminal_writestring}
use mal_os.Kernel.Tty.Cursor.{IsCrtc, cursor}
use mal_os.Kernel.Tty.Text.{terminal_writestring-Writes}
use mal_os.Kernel.Tty.Confined.{Writes-Outside}
use mal_os.Kernel.Tty.Screen.{type_text, view, view-Writes}
use mal_os.Libc.Printf.{Arg, int_max, printf, puts}
use mal_os.Libc.Printf.Render.{render}
use mal_os.Libc.Printf.Writes.{printf-Writes, puts-Writes}

bytes_same : (s : List ℕ) → All (λ c. c < 256) s → map u8 s ≡ s
bytes_same [] all = refl
bytes_same (c ∷ s) (lt, all) = ap₂ (λ c s. c ∷ s) (omega arith) (bytes_same s all)

line_bytes : (s : List ℕ) → All (λ c. c < 256) s → All (λ c. c < 256) (s ++ b'\n' ∷ [])
line_bytes [] all = (omega arith, tt)
line_bytes (c ∷ s) (lt, all) = (lt, line_bytes s all)

module _ {Dev : Type 0} {hw : Ports Dev} (crtc : IsCrtc hw) where
  -- With the cursor on the screen, and a format that with its arguments stands for a text of at most
  -- INT_MAX characters, `printf` returns the length of the text, and on the screen, seen as 25 lines of
  -- 80 cells and a cursor, the text's bytes have been typed in the current colour.
  pub view-printf :
      (format : List ℕ) (args : List Arg) (k : Kernel Dev) (text : List ℕ)
      → cursor crtc k < 2000
      → render format args ≡ some text
      → length text ≤ int_max
      → (k' : Kernel Dev) × (printf hw format args k ≡ some (length text, k'))
        × (view crtc k' ≡ type_text k.t_color (map u8 text) (view crtc k))
  view-printf format args k text h e fits =
      let (k', printed, writes, on) = printf-Writes crtc format args k text h e fits in
      (k', printed, view-Writes crtc (map u8 text) k k' h writes)

  -- With the cursor on the screen, `puts` of a string of bytes shorter than INT_MAX returns, and the
  -- screen is the one that `terminal_writestring` leaves for the string and a line feed.
  pub puts-terminal_writestring :
      (s : List ℕ) (k : Kernel Dev)
      → cursor crtc k < 2000
      → All (λ c. c < 256) s
      → length s < int_max
      → (k' : Kernel Dev) × (puts hw s k ≡ some (length s + 1, k'))
        × (view crtc k' ≡ view crtc (terminal_writestring hw (s ++ b'\n' ∷ []) k))
  puts-terminal_writestring s k h bytes fits =
      let line : List ℕ = s ++ b'\n' ∷ [] in
      let (k', printed, writes, on) = puts-Writes crtc s k h fits in
      let other = (terminal_writestring-Writes crtc line k h).0 in
      (
        k',
        printed,
        view-Writes crtc (map u8 line) k k' h writes
            ∙ ap (λ t. type_text k.t_color t (view crtc k)) (bytes_same line (line_bytes s bytes))
            ∙ sym (view-Writes crtc line k (terminal_writestring hw line k) h other),
      )

  -- Whatever text of at most INT_MAX characters `printf` prints, however often the screen scrolls, with
  -- the cursor on the screen it returns, and no byte of memory changes but the 4000 of the screen and
  -- the 160 behind it.
  pub mem-printf :
      (format : List ℕ) (args : List Arg) (k : Kernel Dev) (text : List ℕ) (p : ℕ)
      → cursor crtc k < 2000
      → render format args ≡ some text
      → length text ≤ int_max
      → (p < k.t_buff) ⊎ (k.t_buff + 4160 ≤ p)
      → (k' : Kernel Dev) × (printf hw format args k ≡ some (length text, k'))
        × (k'.mem p ≡ k.mem p)
  mem-printf format args k text p h e fits outside =
      let (k', printed, writes, on) = printf-Writes crtc format args k text h e fits in
      (k', printed, Writes-Outside crtc (map u8 text) k k' p h writes outside)
