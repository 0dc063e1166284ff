-- ===== src/Libc/Printf/Puts.antt =====
-- Whatever the format and the arguments, all that a call of `printf` does to the kernel is to put
-- characters on the terminal.
use mal_os.Prelude.{
  ℕ, zero, suc, ◌-◌, ◌≡◌, refl, ◌∙◌, ap, sym, subst, ◌==◌, ◌||◌, ltb, if◌then◌else◌, Bool-cases,
  inl, inr, not, Option, none, some, List, [], ◌∷◌, ◌++◌, length, take, drop, u8,
}
use mathlib.Core.Option.{some-injective}
use mal_os.Libc.Itoa.{itoa}
use mal_os.Kernel.Ports.{Ports}
use mal_os.Kernel.State.{Kernel}
use mal_os.Libc.Printf.{
  Arg, int, str, int_max, char_at, run_length, printed, Round, go_on, return, undefined, output,
  output_or_fault, literal, convert_char, convert_string, convert_int, conversion, round, loop,
  printf,
}
use mal_os.Libc.Printf.Render.{put_all, put_all-append, print_lem}

module _ {Dev : Type 0} (hw : Ports Dev) where
  -- `k'` is `k` with characters put on the terminal.
  abbrev pub Puts : Kernel Dev → Kernel Dev → Type 0
  Puts k k' = (text : List ℕ) × (k' ≡ put_all hw text k)

  Puts-refl : (k : Kernel Dev) → Puts k k
  unfolding put_all
  Puts-refl k = ([], refl)

  Puts-trans : (k k₁ k₂ : Kernel Dev) → Puts k k₁ → Puts k₁ k₂ → Puts k k₂
  Puts-trans k k₁ k₂ (s, e) (t, f) =
      (s ++ t, f ∙ ap (put_all hw t) e ∙ sym (put_all-append hw s t k))

  -- The same for what a round does.
  abbrev RoundPuts : Kernel Dev → Round hw → Type 0
  RoundPuts k (go_on format args written k') = Puts k k'
  RoundPuts k (return n k') = Puts k k'
  RoundPuts k undefined = Unit

  output-Puts :
      (s format : List ℕ) (args : List Arg) (written : ℕ) (k : Kernel Dev)
      → RoundPuts k (output hw s format args written k)
  unfolding output
  output-Puts s format args written k = elim (Bool-cases (ltb (int_max - written) (length s))) [
    | inl long ↦ rw long (Puts-refl k)
    | inr fits ↦ rw (fits, print_lem hw s k) (s, refl)
  ]

  output_or_fault-Puts :
      (o : Option (List ℕ)) (format : List ℕ) (args : List Arg) (written : ℕ) (k : Kernel Dev)
      → RoundPuts k (output_or_fault hw o format args written k)
  unfolding output_or_fault
  output_or_fault-Puts none format args written k = tt
  output_or_fault-Puts (some s) format args written k = output-Puts s format args written k

  conversion-Puts :
      (rest : List ℕ) (args : List Arg) (written : ℕ) (k : Kernel Dev)
      → RoundPuts k (conversion hw rest args written k)
  unfolding conversion convert_char convert_string convert_int
  conversion-Puts rest args written k = elim (Bool-cases (char_at rest == b'c')) [
    | inl e ↦ rw e (of_char args)
    | inr e ↦ rw e (elim (Bool-cases (char_at rest == b's')) [
      | inl e ↦ rw e (of_string args)
      | inr e ↦ rw e (elim (Bool-cases (char_at rest == b'd')) [
        | inl e ↦ rw e (of_int 10 args)
        | inr e ↦ rw e (elim (Bool-cases (char_at rest == b'x')) [
          | inl e ↦ rw e (of_int 16 args)
          | inr e ↦ rw e (output-Puts (b'%' ∷ rest) [] args written k)
        ])
      ])
    ])
  ]
    where
      of_char : (args : List Arg) → RoundPuts k (convert_char hw args (drop 1 rest) written k)
      of_char [] = tt
      of_char (int v ∷ args) = output-Puts (u8 v ∷ []) (drop 1 rest) args written k
      of_char (str s ∷ args) = tt

      of_string : (args : List Arg) → RoundPuts k (convert_string hw args (drop 1 rest) written k)
      of_string [] = tt
      of_string (int v ∷ args) = tt
      of_string (str s ∷ args) = output-Puts s (drop 1 rest) args written k

      of_int :
          (base : ℕ) (args : List Arg)
          → RoundPuts k (convert_int hw base args (drop 1 rest) written k)
      of_int base [] = tt
      of_int base (int v ∷ args) =
          output_or_fault-Puts (printed (itoa v base)) (drop 1 rest) args written k
      of_int base (str s ∷ args) = tt

  literal-Puts :
      (s : List ℕ) (args : List Arg) (written : ℕ) (k : Kernel Dev)
      → RoundPuts k (literal hw s args written k)
  unfolding literal
  literal-Puts [] args written k = tt
  literal-Puts (c ∷ s) args written k =
      output-Puts (c ∷ take (run_length s) s) (drop (run_length s) s) args written k

  round-Puts :
      (c : ℕ) (rest : List ℕ) (args : List Arg) (written : ℕ) (k : Kernel Dev)
      → RoundPuts k (round hw c rest args written k)
  unfolding round
  round-Puts c rest args written k = elim (Bool-cases (not (c == b'%') || char_at rest == b'%')) [
    | inl e ↦ rw e (literal-Puts (if c == b'%' then rest else c ∷ rest) args written k)
    | inr e ↦ rw e (conversion-Puts rest args written k)
  ]

  loop-Puts :
      (fuel : ℕ) (format : List ℕ) (args : List Arg) (written n : ℕ) (k k' : Kernel Dev)
      → loop hw fuel format args written k ≡ some (n, k')
      → Puts k k'
  unfolding loop
  loop-Puts fuel [] args written n k k' e =
      subst (Puts k) (ap (λ z. z.1) (some-injective (written, k) (n, k') e)) (Puts-refl k)
  loop-Puts zero (c ∷ rest) args written n k k' e = cc
  loop-Puts (suc fuel) (c ∷ rest) args written n k k' e =
      after (λ format' args' written' k₁. loop-Puts fuel format' args' written' n k₁ k')
        (round hw c rest args written k) (round-Puts c rest args written k) e
    where
      after :
          ((format' : List ℕ) (args' : List Arg) (written' : ℕ) (k₁ : Kernel Dev)
            → loop hw fuel format' args' written' k₁ ≡ some (n, k')
            → Puts k₁ k')
          → (r : Round hw) → RoundPuts k r
          → (elim r [
            | go_on format' args' written' k₁ ↦ loop hw fuel format' args' written' k₁
            | return m k₁ ↦ some (m, k₁)
            | undefined ↦ none
          ])
            ≡ some (n, k')
          → Puts k k'
      after again (go_on format' args' written' k₁) puts e =
          Puts-trans k k₁ k' puts (again format' args' written' k₁ e)
      after again (return m k₁) puts e =
          subst (Puts k) (ap (λ z. z.1) (some-injective (m, k₁) (n, k') e)) puts
      after again undefined puts e = cc

  -- Whatever `printf` is given, if it returns it has put characters on the terminal one by one, and
  -- that is all it has done to the kernel.
  pub printf-Puts :
      (format : List ℕ) (args : List Arg) (n : ℕ) (k k' : Kernel Dev)
      → printf hw format args k ≡ some (n, k')
      → Puts k k'
  unfolding printf
  printf-Puts format args n k k' e = loop-Puts (length format) format args 0 n k k' e
