-- ===== src/Libc/Printf.antt =====
-- BIOS/libc/printf.c, putchar.c and puts.c, on the terminal of BIOS/kernel/tty.c.
-- A C string is the list of its characters before the terminating NUL, so `strlen` is its length.
-- The arguments behind the format are a list. `none` stands for what C leaves undefined: an
-- argument that is missing or of another type, or what `itoa` is undefined on.
pub mod Render
pub mod Prints
pub mod Writes
pub mod Bounded
pub mod Puts
pub mod Screens
mod Tests
use mal_os.Prelude.{
  ℕ, zero, suc, ◌+◌, ◌-◌, ◌^◌, Bool, true, false, ◌||◌, ◌==◌, ltb, if◌then◌else◌, Option, none,
  some, List, [], ◌∷◌, ◌++◌, length, take, drop, u8, not,
}
use mal_os.Libc.Memory.{minus_one}
use mal_os.Libc.Itoa.{itoa}
use mal_os.Kernel.Ports.{Ports}
use mal_os.Kernel.State.{Kernel}
use mal_os.Kernel.Tty.{terminal_putchar}

pub data Arg : Type 0 where
  int : ℕ → Arg
  str : List ℕ → Arg

abbrev pub eof : ℕ
eof = minus_one

abbrev pub int_max : ℕ
int_max = 2 ^ 31 - 1

-- `format[0]`, which is the NUL at the end.
abbrev pub char_at : List ℕ → ℕ
char_at [] = 0
char_at (c ∷ s) = c

-- `while (format[amount] && format[amount] != '%') amount++`, from `format + amount` on.
pub run_length : List ℕ → ℕ
run_length [] = 0
run_length (c ∷ s) = if c == b'%' then 0 else suc (run_length s)

-- What `itoa` puts into `buff`, as far as `print` reads it.
abbrev pub printed : Option (ℕ × List ℕ) → Option (List ℕ)
printed none = none
printed (some (len, buff)) = some (take len buff)

module _ {Dev : Type 0} (hw : Ports Dev) where
  pub putchar : ℕ → Kernel Dev → ℕ × Kernel Dev
  putchar ic k = (ic, terminal_putchar hw (u8 ic) k)

  pub print : List ℕ → Kernel Dev → Bool × Kernel Dev
  print [] k = (true, k)
  print (c ∷ s) k =
      let (r, k') = putchar (u8 c) k in elim (r == eof) [ true ↦ (false, k') | false ↦ print s k' ]

  -- What one round of the loop does: go on, return, or run into undefined behaviour.
  pub data Round : Type 0 where
    go_on : List ℕ → List Arg → ℕ → Kernel Dev → Round
    return : ℕ → Kernel Dev → Round
    undefined : Round

  -- Print `s` if it does not take the count past INT_MAX, and go on with `format`.
  pub output : List ℕ → List ℕ → List Arg → ℕ → Kernel Dev → Round
  output s format args written k =
      if ltb (int_max - written) (length s)
      then return minus_one k
      else let (done, k') = print s k in
        if done then go_on format args (written + length s) k' else return minus_one k'

  pub output_or_fault : Option (List ℕ) → List ℕ → List Arg → ℕ → Kernel Dev → Round
  output_or_fault none format args written k = undefined
  output_or_fault (some s) format args written k = output s format args written k

  -- A run of plain characters, of which the first is taken whatever it is.
  pub literal : List ℕ → List Arg → ℕ → Kernel Dev → Round
  literal [] args written k = undefined
  literal (c ∷ s) args written k =
      let more = run_length s in output (c ∷ take more s) (drop more s) args written k

  pub convert_char : List Arg → List ℕ → ℕ → Kernel Dev → Round
  convert_char (int v ∷ args) format written k = output (u8 v ∷ []) format args written k
  convert_char _ format written k = undefined

  pub convert_string : List Arg → List ℕ → ℕ → Kernel Dev → Round
  convert_string (str s ∷ args) format written k = output s format args written k
  convert_string _ format written k = undefined

  pub convert_int : ℕ → List Arg → List ℕ → ℕ → Kernel Dev → Round
  convert_int base (int v ∷ args) format written k =
      output_or_fault (printed (itoa v base)) format args written k
  convert_int base _ format written k = undefined

  -- The round at a `%` that is not doubled; `rest` is the format behind it.
  pub conversion : List ℕ → List Arg → ℕ → Kernel Dev → Round
  conversion rest args written k =
      if char_at rest == b'c'
      then convert_char args (drop 1 rest) written k
      else if char_at rest == b's'
      then convert_string args (drop 1 rest) written k
      else if char_at rest == b'd'
      then convert_int 10 args (drop 1 rest) written k
      else if char_at rest == b'x'
      then convert_int 16 args (drop 1 rest) written k
      else output (b'%' ∷ rest) [] args written k

  pub round : ℕ → List ℕ → List Arg → ℕ → Kernel Dev → Round
  round c rest args written k =
      if not (c == b'%') || char_at rest == b'%'
      then literal (if c == b'%' then rest else c ∷ rest) args written k
      else conversion rest args written k

  -- Each round takes a character of the format at least, so its length is fuel enough.
  pub loop : ℕ → List ℕ → List Arg → ℕ → Kernel Dev → Option (ℕ × Kernel Dev)
  loop fuel [] args written k = some (written, k)
  loop zero (c ∷ rest) args written k = none
  loop (suc fuel) (c ∷ rest) args written k = elim (round c rest args written k) [
    | go_on format' args' written' k' ↦ loop fuel format' args' written' k'
    | return r k' ↦ some (r, k')
    | undefined ↦ none
  ]

  pub printf : List ℕ → List Arg → Kernel Dev → Option (ℕ × Kernel Dev)
  printf format args k = loop (length format) format args 0 k

  -- A call of `printf` as a statement.
  unfoldable pub say : List ℕ → List Arg → Kernel Dev → Option (Kernel Dev)
  say format args k = elim (printf format args k) [ none ↦ none | some (n, k') ↦ some k' ]

  pub puts : List ℕ → Kernel Dev → Option (ℕ × Kernel Dev)
  puts string k = printf (b'%' ∷ b's' ∷ b'\n' ∷ []) (str string ∷ []) k
