-- ===== src/Libc/Printf/Render.antt =====
-- The text that a format stands for, character by character, and that `printf` prints it.
use mal_os.Prelude.{
  ℕ, zero, suc, ◌+◌, ◌-◌, ◌≤◌, ◌≡◌, refl, Bool, true, false, ◌||◌, ◌==◌, ltb, if◌then◌else◌, Option,
  none, some, List, [], ◌∷◌, ◌++◌, length, take, drop, u8, not, arith, ap, sym, All, ◌∙◌,
  Bool-cases, inl, inr,
}
use mathlib.Core.List.{append-nil}
use mal_os.Libc.Memory.{minus_one}
use mal_os.Libc.Itoa.{itoa}
use mal_os.Kernel.Ports.{Ports}
use mal_os.Kernel.State.{Kernel}
use mal_os.Kernel.Tty.{terminal_putchar}
use mal_os.Libc.Printf.{Arg, int, str, int_max, run_length, printed, putchar, print, output, go_on}

-- `text` in front of what follows.
abbrev pub before : List ℕ → Option (List ℕ) → Option (List ℕ)
before text none = none
before text (some rest) = some (text ++ rest)

-- The text of a conversion, with the arguments that it leaves.
abbrev pub converted : ℕ → List Arg → Option (List ℕ × List Arg)
converted c [] = none
converted c (int v ∷ args) =
    if c == b'c'
    then some (u8 v ∷ [], args)
    else if c == b'd'
    then elim (printed (itoa v 10)) [ none ↦ none | some s ↦ some (s, args) ]
    else if c == b'x'
    then elim (printed (itoa v 16)) [ none ↦ none | some s ↦ some (s, args) ]
    else none
converted c (str s ∷ args) = if c == b's' then some (s, args) else none

abbrev pub is_conversion : ℕ → Bool
is_conversion c = c == b'c' || (c == b's' || (c == b'd' || c == b'x'))

-- The text of a format: `%%` is a per cent sign, `%c`, `%s`, `%d` and `%x` take an argument, and
-- from any other per cent sign on the format stands for itself.
unfoldable pub render : List ℕ → List Arg → Option (List ℕ)
render [] args = some []
render (c ∷ []) args = some (c ∷ [])
render (c ∷ d ∷ s) args =
    let plain = before (c ∷ []) (render (d ∷ s) args) in
    let doubled = before (d ∷ []) (render s args) in
    let conversion : Option (List ℕ) = elim (converted d args) [
      | none ↦ none
      | some (text, args') ↦ before text (render s args')
    ] in
    if not (c == b'%')
    then plain
    else if d == b'%'
    then doubled
    else if is_conversion d
    then conversion
    else some (c ∷ d ∷ s)

pub before_inv :
    (x : List ℕ) (o : Option (List ℕ)) {t : List ℕ}
    → before x o ≡ some t
    → (r : List ℕ) × (o ≡ some r) × (t ≡ x ++ r)
before_inv x none h = cc
before_inv x (some r) h = (r, refl, ground arith)

pub render-plain :
    (c : ℕ) (s : List ℕ) (args : List Arg)
    → (c == b'%') ≡ false
    → render (c ∷ s) args ≡ before (c ∷ []) (render s args)
unfolding render
render-plain c [] args h = refl
render-plain c (d ∷ s) args h = rw h

pub render-nil : (args : List Arg) → render [] args ≡ some []
unfolding render
render-nil args = refl

before-cons :
    (c : ℕ) (s : List ℕ) (o : Option (List ℕ)) → before (c ∷ []) (before s o) ≡ before (c ∷ s) o
before-cons c s none = refl
before-cons c s (some rest) = refl

before-nil : (o : Option (List ℕ)) → o ≡ before [] o
before-nil none = refl
before-nil (some rest) = refl

-- Text without a per cent sign stands for itself.
pub render_text :
    (s format : List ℕ) (args : List Arg)
    → All (λ c. (c == b'%') ≡ false) s
    → render (s ++ format) args ≡ before s (render format args)
render_text [] format args all = before-nil (render format args)
render_text (c ∷ s) format args (plain, all) =
    render-plain c (s ++ format) args plain
    ∙ ap (before (c ∷ [])) (render_text s format args all)
    ∙ before-cons c s (render format args)

-- Text without a per cent sign is printed as it is.
pub render_literal :
    (s : List ℕ) (args : List Arg) → All (λ c. (c == b'%') ≡ false) s → render s args ≡ some s
render_literal s args all =
    ap (λ z. render z args) (sym (append-nil s))
    ∙ render_text s [] args all
    ∙ ap (before s) (render-nil args)
    ∙ ap some (append-nil s)

pub render-converted :
    (d : ℕ) (format : List ℕ) (args args' : List Arg) (text : List ℕ)
    → (d == b'%') ≡ false
    → is_conversion d ≡ true
    → converted d args ≡ some (text, args')
    → render (b'%' ∷ d ∷ format) args ≡ before text (render format args')
unfolding render
render-converted d format args args' text h g e = rw (h, g, e) refl

pub take-length : (xs ys : List ℕ) → take (length xs) (xs ++ ys) ≡ xs
take-length [] ys = refl
take-length (x ∷ xs) ys = ap (λ z. x ∷ z) (take-length xs ys)

-- The plain characters up to the next per cent sign stand for themselves.
pub render_run :
    (s : List ℕ) (args : List Arg) {t : List ℕ}
    → render s args ≡ some t
    → (r : List ℕ) × (render (drop (run_length s) s) args ≡ some r)
      × (t ≡ take (run_length s) s ++ r)
unfolding run_length
render_run [] args {t} h = (t, h, refl)
render_run (c ∷ s) args {t} h = elim (Bool-cases (c == b'%')) [
  | inl sign ↦ rw sign (t, h, refl)
  | inr plain ↦
      let (r, e, cut) =
        before_inv (c ∷ []) (render s args) (sym (render-plain c s args plain) ∙ h) in
      let (r', e', cut') = render_run s args e in rw plain (r', e', cut ∙ ap (λ z. c ∷ z) cut')
]

pub length-drop-le : (n : ℕ) (s : List ℕ) → length (drop n s) ≤ length s
length-drop-le zero s = omega arith
length-drop-le (suc n) [] = omega arith
length-drop-le (suc n) (c ∷ s) = omega (arith, length-drop-le n s)

module _ {Dev : Type 0} (hw : Ports Dev) where
  -- The characters put on the terminal one by one.
  unfoldable pub put_all : List ℕ → Kernel Dev → Kernel Dev
  put_all [] k = k
  put_all (c ∷ s) k = put_all s (terminal_putchar hw (u8 c) k)

  pub put_all-append :
      (s t : List ℕ) (k : Kernel Dev) → put_all (s ++ t) k ≡ put_all t (put_all s k)
  unfolding put_all
  put_all-append [] t k = refl
  put_all-append (c ∷ s) t k = put_all-append s t (terminal_putchar hw (u8 c) k)

  -- `putchar` never fails, so `print` prints everything.
  pub print_lem : (s : List ℕ) (k : Kernel Dev) → print hw s k ≡ (true, put_all s k)
  unfolding print putchar put_all
  print_lem [] k = refl
  print_lem (c ∷ s) k =
      let no_eof : (u8 c == minus_one) ≡ false = ground arith in
      let twice : u8 (u8 c) ≡ u8 c = omega arith in
      rw (no_eof, print, twice) (print_lem s (terminal_putchar hw (u8 c) k))

  pub output_lem :
      (s format : List ℕ) (args : List Arg) (written : ℕ) (k : Kernel Dev)
      → written + length s ≤ int_max
      → output hw s format args written k ≡ go_on format args (written + length s) (put_all s k)
  unfolding output
  output_lem s format args written k h =
      let fits : ltb (int_max - written) (length s) ≡ false = ground arith in
      rw (fits, print_lem s k)
