-- ===== src/Interrupts/Isr/Messages.antt =====
-- The lines that `isr_handler` prints.
use mal_os.Prelude.{
  inl, ℕ, zero, suc, ◌+◌, ◌^◌, ◌≤◌, ◌<◌, ◌≡◌, refl, ◌∙◌, ap, some, List, [], ◌∷◌, ◌++◌, length, All,
  get_elem?, map, codes, length-append, arith,
}
use mal_os.Libc.Itoa.RoundTrip.{IsNotation, itoa-IsNotation}
use mal_os.Libc.Printf.{int, str}
use mal_os.Libc.Printf.Render.{
  render_literal, take-length, render, before, converted, render_text, render-nil, render-converted,
}
use mal_os.Interrupts.Isr.{message_texts, exception_messages, received_format, panic_text}

-- Every exception of the processor has a message, of at most 33 characters.
get_elem?-All :
    {P : List ℕ → Type 0} (xs : List (List ℕ)) (n : ℕ)
    → All P xs
    → n < length xs
    → (x : List ℕ) × (get_elem? xs n ≡ some x) × P x
get_elem?-All [] n all h = absurd (omega arith)
get_elem?-All (x ∷ xs) zero (p, all) h = (x, refl, p)
get_elem?-All (x ∷ xs) (suc n) (p, all) h = get_elem?-All xs n all (omega arith)

pub message_short :
    (n : ℕ)
    → n < 32
    → (message : List ℕ) × (exception_messages n ≡ some message) × (length message ≤ 33)
message_short n h =
    get_elem?-All {P = λ x. length x ≤ 33} (map codes message_texts) n (ground arith) h

-- The line for an exception whose number has those digits.
abbrev pub received : List ℕ → List ℕ → List ℕ
received ds message =
    codes "\nreceived interrupt: " ++ (ds ++ (codes "h -> " ++ (message ++ codes " Exception !\n")))

pub received-render :
    (n : ℕ) (message : List ℕ)
    → n < 2 ^ 32
    → (ds : List ℕ) × IsNotation 16 8 n ds
      × (render received_format (int n ∷ str message ∷ []) ≡ some (received ds message))
      × (length (received ds message) ≤ 48 + length message)
received-render n message h =
    let (ds, e, notation) =
      itoa-IsNotation 16 (omega arith) (omega arith) n 8 (omega arith) (omega arith)
        (inl (λ e. absurd (omega (arith, e)))) (omega arith) in
    let digits : converted b'x' (int n ∷ str message ∷ []) ≡ some (ds, str message ∷ []) =
      rw (e, take-length ds (0 ∷ [])) refl in
    (
      ds,
      notation,
      render_text (codes "\nreceived interrupt: ") _ _ (ground arith)
          ∙ ap (before (codes "\nreceived interrupt: ")) (
              render-converted b'x' _ _ _ ds refl refl digits
              ∙ ap (before ds) (
                  render_text (codes "h -> ") _ _ (ground arith)
                  ∙ ap (before (codes "h -> ")) (
                      render-converted b's' _ _ _ message refl refl refl
                      ∙ ap (before message) (
                          render_text (codes " Exception !\n") [] [] (ground arith)
                          ∙ ap (before (codes " Exception !\n")) (render-nil []))))),
      omega (
        arith,
        length-append ds (codes "h -> " ++ (message ++ codes " Exception !\n")),
        length-append message (codes " Exception !\n"),
        notation.short,
      ),
    )

pub panic_text-render : render panic_text [] ≡ some panic_text
panic_text-render = render_literal panic_text [] (ground arith)

pub caught-render : render (codes "caught!") [] ≡ some (codes "caught!")
caught-render = render_literal (codes "caught!") [] (ground arith)
