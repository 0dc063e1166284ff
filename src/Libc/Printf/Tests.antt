-- ===== src/Libc/Printf/Tests.antt =====
-- Runs of `printf`, and its theorems at a concrete terminal.
use mal_os.Prelude.{ℕ, ◌+◌, ◌≡◌, refl, some, List, [], ◌∷◌, ◌++◌, length, u8, inr, map, arith}
use mal_os.Kernel.State.{Kernel}
use mal_os.Kernel.Tty.Screen.{type_text, view}
use mal_os.Kernel.Tty.{terminal_writestring}
use mal_os.Kernel.Tty.Sample.{Crtc, ports, ports-IsCrtc, full, hi}
use mal_os.Libc.Itoa.{itoa, emit, finish}
use mal_os.Libc.Printf.{Arg, int, str, printf, puts}
use mal_os.Libc.Printf.Render.{render, put_all}
use mal_os.Libc.Printf.Prints.{printf-render}
use mal_os.Libc.Printf.Screens.{view-printf, puts-terminal_writestring, mem-printf}

-- "%s: 100%% %d"
abbrev format : List ℕ
format = b'%' ∷ b's' ∷ b':' ∷ b' ' ∷ b'1' ∷ b'0' ∷ b'0' ∷ b'%' ∷ b'%' ∷ b' ' ∷ b'%' ∷ b'd' ∷ []

abbrev args : List Arg
args = str hi ∷ int 42 ∷ []

-- "hi: 100% 42"
abbrev text : List ℕ
text = b'h' ∷ b'i' ∷ b':' ∷ b' ' ∷ b'1' ∷ b'0' ∷ b'0' ∷ b'%' ∷ b' ' ∷ b'4' ∷ b'2' ∷ []

format-text : render format args ≡ some text
unfolding render itoa emit finish
format-text = refl

printf-render_example : printf ports format args full ≡ some (11, put_all ports text full)
printf-render_example = printf-render ports format args full text format-text (omega arith)

view-printf_example :
    (k' : Kernel Crtc) × (printf ports format args full ≡ some (length text, k'))
    × (view ports-IsCrtc k' ≡ type_text 0x1F (map u8 text) (view ports-IsCrtc full))
view-printf_example =
    view-printf ports-IsCrtc format args full text (omega arith) format-text (omega arith)

puts-terminal_writestring_example :
    (k' : Kernel Crtc) × (puts ports hi full ≡ some (length hi + 1, k'))
    × (view ports-IsCrtc k'
        ≡ view ports-IsCrtc (terminal_writestring ports (hi ++ b'\n' ∷ []) full))
puts-terminal_writestring_example =
    puts-terminal_writestring ports-IsCrtc hi full (omega arith) (omega arith, (omega arith, tt))
      (omega arith)

mem-printf_example :
    (k' : Kernel Crtc) × (printf ports format args full ≡ some (length text, k'))
    × (k'.mem 0xb9040 ≡ full.mem 0xb9040)
mem-printf_example =
    mem-printf ports-IsCrtc format args full text 0xb9040 (omega arith) format-text (omega arith)
      (inr (omega arith))
