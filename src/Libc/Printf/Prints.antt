-- ===== src/Libc/Printf/Prints.antt =====
-- `printf` prints the text that its format stands for.
use mal_os.Prelude.{
  ℕ, zero, suc, ◌+◌, ◌≤◌, ◌≡◌, refl, true, false, ◌==◌, Option, some, List, [], ◌∷◌, ◌++◌, length,
  take, drop, arith, ap, ap₂, sym, ◌∙◌, length-append, Bool-cases, inl, inr, Option-cases, subst,
}
use mathlib.Core.List.{append-nil}
use mathlib.Core.Option.{some-injective}
use mal_os.Kernel.Ports.{Ports}
use mal_os.Kernel.State.{Kernel}
use mal_os.Libc.Printf.{
  Arg, int, str, int_max, char_at, run_length, output, output_or_fault, literal, convert_char,
  convert_string, convert_int, conversion, round, loop, printf, say,
}
use mal_os.Libc.Printf.Render.{
  before, converted, is_conversion, render, before_inv, render-plain, render_run, length-drop-le,
  put_all, put_all-append, output_lem,
}

module _ {Dev : Type 0} (hw : Ports Dev) where
  abbrev Prints : ℕ → List ℕ → List Arg → ℕ → Kernel Dev → List ℕ → Type 0
  Prints fuel format args written k text =
      loop hw fuel format args written k ≡ some (written + length text, put_all hw text k)

  -- A round that prints `s` and goes on with `format'`.
  loop_step :
      (fuel c : ℕ) (rest : List ℕ) (args : List Arg) (written : ℕ) (k : Kernel Dev)
      (s format' : List ℕ) (args' : List Arg) (text : List ℕ)
      → round hw c rest args written k ≡ output hw s format' args' written k
      → written + length (s ++ text) ≤ int_max
      → Prints fuel format' args' (written + length s) (put_all hw s k) text
      → Prints (suc fuel) (c ∷ rest) args written k (s ++ text)
  unfolding loop
  loop_step fuel c rest args written k s format' args' text e fits more =
      let short = length-append s text in
      rw (e ∙ output_lem hw s format' args' written k (omega arith), loop)
        (more
          ∙ ap₂ (λ n (z : Kernel Dev). some (n, z)) (omega arith)
              (sym (put_all-append hw s text k)))

  -- What is known of the formats that are left.
  abbrev Known : ℕ → Type 0
  Known fuel =
      (format : List ℕ) (args : List Arg) (written : ℕ) (k : Kernel Dev) (text : List ℕ)
      → length format ≤ fuel
      → render format args ≡ some text
      → written + length text ≤ int_max
      → Prints fuel format args written k text

  -- A run of plain characters behind the character `c`, which stands for itself.
  literal_step :
      (fuel c' : ℕ) (rest' : List ℕ) (c : ℕ) (rest : List ℕ) (args : List Arg) (written : ℕ)
      (k : Kernel Dev) (text : List ℕ)
      → Known fuel
      → round hw c' rest' args written k ≡ literal hw (c ∷ rest) args written k
      → length rest ≤ fuel
      → before (c ∷ []) (render rest args) ≡ some text
      → written + length text ≤ int_max
      → Prints (suc fuel) (c' ∷ rest') args written k text
  unfolding literal
  literal_step fuel c' rest' c rest args written k text known e short h fits =
      let n = run_length rest in
      let (t, et, cut) = before_inv (c ∷ []) (render rest args) h in
      let (r, er, cut') = render_run rest args et in
      let run : List ℕ = c ∷ take n rest in
      let whole : run ++ r ≡ text = sym (cut ∙ ap (λ z. c ∷ z) cut') in
      let fits' : written + length (run ++ r) ≤ int_max =
        subst (λ (z : List ℕ). written + length z ≤ int_max) (sym whole) fits in
      let sum = length-append run r in
      subst (Prints (suc fuel) (c' ∷ rest') args written k) whole (
        loop_step fuel c' rest' args written k run (drop n rest) args r e fits' (
          known (drop n rest) args (written + length run) (put_all hw run k) r
            (omega (arith, length-drop-le n rest)) er (omega arith)))

  round-plain :
      (c : ℕ) (rest : List ℕ) (args : List Arg) (written : ℕ) (k : Kernel Dev)
      → (c == b'%') ≡ false
      → round hw c rest args written k ≡ literal hw (c ∷ rest) args written k
  unfolding round
  round-plain c rest args written k h = rw h

  round-doubled :
      (c d : ℕ) (s : List ℕ) (args : List Arg) (written : ℕ) (k : Kernel Dev)
      → (c == b'%') ≡ true
      → (d == b'%') ≡ true
      → round hw c (d ∷ s) args written k ≡ literal hw (d ∷ s) args written k
  unfolding round
  round-doubled c d s args written k h g = rw (h, g)

  round-conversion :
      (c : ℕ) (rest : List ℕ) (args : List Arg) (written : ℕ) (k : Kernel Dev)
      → (c == b'%') ≡ true
      → (char_at rest == b'%') ≡ false
      → round hw c rest args written k ≡ conversion hw rest args written k
  unfolding round
  round-conversion c rest args written k h g = rw (h, g)

  -- A conversion prints the text of its argument and goes on behind its letter.
  conversion-converted :
      (d : ℕ) (s : List ℕ) (args args' : List Arg) (text : List ℕ) (written : ℕ) (k : Kernel Dev)
      → converted d args ≡ some (text, args')
      → conversion hw (d ∷ s) args written k ≡ output hw text s args' written k
  unfolding conversion convert_char convert_string convert_int output_or_fault
  conversion-converted d s [] args' text written k h = cc
  conversion-converted d s (str z ∷ args) args' text written k h = ground arith
  conversion-converted d s (int v ∷ args) args' text written k h = ground arith

  conversion-raw :
      (rest : List ℕ) (args : List Arg) (written : ℕ) (k : Kernel Dev)
      → is_conversion (char_at rest) ≡ false
      → conversion hw rest args written k ≡ output hw (b'%' ∷ rest) [] args written k
  unfolding conversion
  conversion-raw rest args written k h = ground arith

  render-conversion :
      (c d : ℕ) (s : List ℕ) (args : List Arg) {text : List ℕ}
      → (c == b'%') ≡ true
      → (d == b'%') ≡ false
      → is_conversion d ≡ true
      → render (c ∷ d ∷ s) args ≡ some text
      → (x : List ℕ) × (args' : List Arg) × (r : List ℕ) × (converted d args ≡ some (x, args'))
        × (render s args' ≡ some r)
        × (text ≡ x ++ r)
  unfolding render
  render-conversion c d s args p q is h = elim (Option-cases (converted d args)) [
    | inl e ↦ absurd (cc (rw (p, q, is, e) at h))
    | inr ((x, args'), e) ↦
        let (r, er, cut) = before_inv x (render s args') (rw (p, q, is, e) at h) in
        (x, args', r, e, er, cut)
  ]

  render-raw :
      (c d : ℕ) (s : List ℕ) (args : List Arg) {text : List ℕ}
      → (c == b'%') ≡ true
      → (d == b'%') ≡ false
      → is_conversion d ≡ false
      → render (c ∷ d ∷ s) args ≡ some text
      → c ∷ d ∷ s ≡ text
  unfolding render
  render-raw c d s args p q raw h = some-injective (c ∷ d ∷ s) _ (rw (p, q, raw) at h)

  -- A format that stands for itself to its end.
  raw_step :
      (fuel c : ℕ) (rest : List ℕ) (args : List Arg) (written : ℕ) (k : Kernel Dev) (text : List ℕ)
      → Known fuel
      → (c == b'%') ≡ true
      → (char_at rest == b'%') ≡ false
      → is_conversion (char_at rest) ≡ false
      → c ∷ rest ≡ text
      → written + length text ≤ int_max
      → Prints (suc fuel) (c ∷ rest) args written k text
  raw_step fuel c rest args written k text known p q raw e fits =
      let whole : (b'%' ∷ rest) ++ [] ≡ text =
        ap (λ z. b'%' ∷ z) (append-nil rest)
        ∙ ap (λ z. z ∷ rest) {x = b'%'} {y = c} (ground arith)
        ∙ e in
      let fits' : written + length ((b'%' ∷ rest) ++ []) ≤ int_max =
        subst (λ (z : List ℕ). written + length z ≤ int_max) (sym whole) fits in
      let sum = length-append (b'%' ∷ rest) [] in
      subst (Prints (suc fuel) (c ∷ rest) args written k) whole (
        loop_step fuel c rest args written k (b'%' ∷ rest) [] args []
          (round-conversion c rest args written k p q ∙ conversion-raw rest args written k raw)
          fits'
          (known [] args (written + length (b'%' ∷ rest)) (put_all hw (b'%' ∷ rest) k) []
            (omega arith) (unfold render in refl) (omega arith)))

  -- A format that begins with a per cent sign and another character.
  sign_step :
      (fuel c d : ℕ) (s : List ℕ) (args : List Arg) (written : ℕ) (k : Kernel Dev) (text : List ℕ)
      → Known fuel
      → (c == b'%') ≡ true
      → suc (length s) ≤ fuel
      → render (c ∷ d ∷ s) args ≡ some text
      → written + length text ≤ int_max
      → Prints (suc fuel) (c ∷ d ∷ s) args written k text
  sign_step fuel c d s args written k text known p short h fits = elim (Bool-cases (d == b'%')) [
    | inl q ↦
        literal_step fuel c (d ∷ s) d s args written k text known
          (round-doubled c d s args written k p q) (omega arith)
          (sym (render-doubled c d s args p q) ∙ h) fits
    | inr q ↦ elim (Bool-cases (is_conversion d)) [
      | inl is ↦
          let (x, args', r, e, er, cut) = render-conversion c d s args p q is h in
          let fits' : written + length (x ++ r) ≤ int_max =
            subst (λ (z : List ℕ). written + length z ≤ int_max) cut fits in
          let sum = length-append x r in
          subst (Prints (suc fuel) (c ∷ d ∷ s) args written k) (sym cut) (
            loop_step fuel c (d ∷ s) args written k x s args' r
              (round-conversion c (d ∷ s) args written k p q
                ∙ conversion-converted d s args args' x written k e)
              fits'
              (known s args' (written + length x) (put_all hw x k) r (omega arith) er
                (omega arith)))
      | inr raw ↦
          raw_step fuel c (d ∷ s) args written k text known p q raw
            (render-raw c d s args p q raw h) fits
    ]
  ]
    where
      render-doubled :
          (c d : ℕ) (s : List ℕ) (args : List Arg)
          → (c == b'%') ≡ true
          → (d == b'%') ≡ true
          → render (c ∷ d ∷ s) args ≡ before (d ∷ []) (render s args)
      render-doubled c d s args p q = unfold render in rw (p, q)

  percent_step :
      (fuel c : ℕ) (rest : List ℕ) (args : List Arg) (written : ℕ) (k : Kernel Dev) (text : List ℕ)
      → Known fuel
      → (c == b'%') ≡ true
      → length rest ≤ fuel
      → render (c ∷ rest) args ≡ some text
      → written + length text ≤ int_max
      → Prints (suc fuel) (c ∷ rest) args written k text
  unfolding render
  percent_step fuel c [] args written k text known p short h fits =
      raw_step fuel c [] args written k text known p refl refl (some-injective (c ∷ []) text h) fits
  percent_step fuel c (d ∷ s) args written k text known p short h fits =
      sign_step fuel c d s args written k text known p short h fits

  empty_step :
      (fuel : ℕ) (args : List Arg) (written : ℕ) (k : Kernel Dev) (text : List ℕ)
      → render [] args ≡ some text
      → Prints fuel [] args written k text
  unfolding render loop put_all
  empty_step fuel args written k text h =
      subst
        (λ text.
          ◌≡◌ {A = Option (ℕ × Kernel Dev)} (some (written, k))
            (some (written + length text, put_all hw text k)))
        (some-injective [] text h) (ap (λ n. some (n, k)) (omega arith))

  loop_prints : (fuel : ℕ) → Known fuel
  loop_prints zero [] args written k text short h fits = empty_step 0 args written k text h
  loop_prints zero (c ∷ rest) args written k text short h fits = absurd (omega arith)
  loop_prints (suc fuel) [] args written k text short h fits =
      empty_step (suc fuel) args written k text h
  loop_prints (suc fuel) (c ∷ rest) args written k text short h fits =
      elim (Bool-cases (c == b'%')) [
        | inr plain ↦
            literal_step fuel c rest c rest args written k text (loop_prints fuel)
              (round-plain c rest args written k plain) (omega arith)
              (sym (render-plain c rest args plain) ∙ h) fits
        | inl p ↦
            percent_step fuel c rest args written k text (loop_prints fuel) p (omega arith) h fits
      ]

  -- Where a format with its arguments stands for a text of at most INT_MAX characters, `printf`
  -- returns the text's length and has put its characters on the terminal one by one.
  pub printf-render :
      (format : List ℕ) (args : List Arg) (k : Kernel Dev) (text : List ℕ)
      → render format args ≡ some text
      → length text ≤ int_max
      → printf hw format args k ≡ some (length text, put_all hw text k)
  unfolding printf
  printf-render format args k text h fits =
      loop_prints (length format) format args 0 k text (omega arith) h (omega arith)
      ∙ ap (λ n. some (n, put_all hw text k)) (omega arith)

  pub say-render :
      (format : List ℕ) (args : List Arg) (k : Kernel Dev) (text : List ℕ)
      → render format args ≡ some text
      → length text ≤ int_max
      → say hw format args k ≡ some (put_all hw text k)
  unfolding say
  say-render format args k text h fits = rw (printf-render format args k text h fits, say) refl
