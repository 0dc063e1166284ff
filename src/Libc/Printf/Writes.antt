-- ===== src/Libc/Printf/Writes.antt =====
-- What a call of `printf` or `puts` leaves on the screen.
use mal_os.Prelude.{
  ℕ, ◌+◌, ◌≤◌, ◌<◌, ◌≡◌, refl, some, List, [], ◌∷◌, ◌++◌, length, u8, map, arith, sym, subst, ◌∙◌,
  ap, length-append,
}
use mal_os.Kernel.Ports.{Ports}
use mal_os.Kernel.State.{Kernel}
use mal_os.Kernel.Tty.{terminal_putchar}
use mal_os.Kernel.Tty.Cursor.{IsCrtc, cursor}
use mal_os.Kernel.Tty.Print.{terminal_putchar-Shows}
use mal_os.Kernel.Tty.Text.{Writes, Writes-on_screen, settle-lt}
use mal_os.Libc.Printf.{Arg, str, int_max, printf, puts}
use mal_os.Libc.Printf.Render.{render, put_all}
use mal_os.Libc.Printf.Prints.{printf-render}

module _ {Dev : Type 0} {hw : Ports Dev} (crtc : IsCrtc hw) where
  pub put_all-Writes :
      (text : List ℕ) (k : Kernel Dev)
      → cursor crtc k < 2000
      → Writes crtc (map u8 text) k (put_all hw text k)
  unfolding put_all
  put_all-Writes [] k h = (refl, refl)
  put_all-Writes (c ∷ text) k h =
      let k₁ = terminal_putchar hw (u8 c) k in
      let shows = terminal_putchar-Shows hw crtc (u8 c) k h in
      (
        k₁,
        shows,
        put_all-Writes text k₁
            (subst (λ n. n < 2000) (sym shows.0) (settle-lt crtc (u8 c) (cursor crtc k) h)),
      )

  -- With the cursor on the screen, and a format that with its arguments stands for a text of at most
  -- INT_MAX characters, `printf` returns the length of the text and has written its characters one
  -- after the other from the cursor on, each as a byte; the cursor is on the screen again.
  pub printf-Writes :
      (format : List ℕ) (args : List Arg) (k : Kernel Dev) (text : List ℕ)
      → cursor crtc k < 2000
      → render format args ≡ some text
      → length text ≤ int_max
      → (k' : Kernel Dev) × (printf hw format args k ≡ some (length text, k'))
        × Writes crtc (map u8 text) k k'
        × (cursor crtc k' < 2000)
  printf-Writes format args k text h e fits =
      let w = put_all-Writes text k h in
      (
        put_all hw text k,
        printf-render hw format args k text e fits,
        w,
        Writes-on_screen crtc (map u8 text) k (put_all hw text k) h w,
      )

  -- `puts` writes the string and a line feed, and returns the number of both.
  pub puts-Writes :
      (string : List ℕ) (k : Kernel Dev)
      → cursor crtc k < 2000
      → length string < int_max
      → (k' : Kernel Dev) × (puts hw string k ≡ some (length string + 1, k'))
        × Writes crtc (map u8 (string ++ b'\n' ∷ [])) k k'
        × (cursor crtc k' < 2000)
  unfolding puts render
  puts-Writes string k h fits =
      let text : List ℕ = string ++ b'\n' ∷ [] in
      let n = length-append string (b'\n' ∷ []) in
      let (k', e, w, on) =
        printf-Writes (b'%' ∷ b's' ∷ b'\n' ∷ []) (str string ∷ []) k text h refl (omega arith) in
      (k', e ∙ ap (λ n. some (n, k')) (omega arith), w, on)
