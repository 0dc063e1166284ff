-- ===== src/Libc/Printf/Bounded.antt =====
-- Formats that always print, and how long the text can get.
use mal_os.Prelude.{
  ℕ, ◌+◌, ◌^◌, ◌≤◌, ◌<◌, ◌≡◌, inl, inr, refl, ◌∙◌, ap, All, ◌==◌, true, false, some, List, [], ◌∷◌,
  ◌++◌, length, length-append, arith, Bool-cases,
}
use mal_os.Libc.Itoa.{itoa, is_negative}
use mal_os.Libc.Itoa.RoundTrip.{Negates, size, sign, itoa-IsNotation}
use mal_os.Libc.Printf.{Arg, int, printed}
use mal_os.Libc.Printf.Render.{
  render, before, converted, is_conversion, render_text, render-nil, render-converted, take-length,
}

-- The format with its arguments stands for a text of at most `n` characters.
abbrev pub Renders : List ℕ → List Arg → ℕ → Type 0
Renders format args n = (text : List ℕ) × (render format args ≡ some text) × (length text ≤ n)

pub Renders-nil : (args : List Arg) → Renders [] args 0
Renders-nil args = ([], render-nil args, omega arith)

pub Renders-text :
    (s format : List ℕ) (args : List Arg) (n : ℕ)
    → All (λ c. (c == b'%') ≡ false) s
    → Renders format args n
    → Renders (s ++ format) args (length s + n)
Renders-text s format args n plain (text, e, h) = (
  s ++ text,
  render_text s format args plain ∙ ap (before s) e,
  omega (arith, length-append s text),
)

sign_short : (v base : ℕ) → length (sign v base) ≤ 1
sign_short v base = elim (Bool-cases (is_negative v base)) [
  | inl e ↦ rw e (omega arith)
  | inr e ↦ rw e (omega arith)
]

printed_short :
    (base v n : ℕ)
    → 2 ≤ base
    → base ≤ 36
    → 1 ≤ n
    → n ≤ 10
    → Negates v base
    → size v base < base ^ n
    → (text : List ℕ) × (printed (itoa v base) ≡ some text) × (length text ≤ 11)
printed_short base v n two most one ten negates h =
    let (ds, e, notation) = itoa-IsNotation base two most v n one (omega arith) negates h in
    (
      sign v base ++ ds,
      rw e (ap some (take-length (sign v base ++ ds) (0 ∷ []))),
      omega (arith, length-append (sign v base) ds, sign_short v base, notation.short),
    )

size-lt : (v : ℕ) → v < 2 ^ 32 → size v 10 < 10 ^ 10
size-lt v h = ground arith

Renders-converted :
    (c v : ℕ) (format text : List ℕ) (args : List Arg) (n : ℕ)
    → (c == b'%') ≡ false
    → is_conversion c ≡ true
    → converted c (int v ∷ args) ≡ some (text, args)
    → length text ≤ 11
    → Renders format args n
    → Renders (b'%' ∷ c ∷ format) (int v ∷ args) (11 + n)
Renders-converted c v format text args n plain conversion found short (rest, e, le) = (
  text ++ rest,
  render-converted c format (int v ∷ args) args text plain conversion found ∙ ap (before text) e,
  omega (arith, length-append text rest),
)

pub Renders-decimal :
    (v : ℕ) (format : List ℕ) (args : List Arg) (n : ℕ)
    → v < 2 ^ 31
    → Renders format args n
    → Renders (b'%' ∷ b'd' ∷ format) (int v ∷ args) (11 + n)
Renders-decimal v format args n h rest =
    let (text, e, short) =
      printed_short 10 v 10 (omega arith) (omega arith) (omega arith) (omega arith)
        (inr (λ e. absurd (omega (arith, e)))) (size-lt v (omega arith)) in
    Renders-converted b'd' v format text args n refl refl (rw e refl) short rest

pub Renders-hexadecimal :
    (v : ℕ) (format : List ℕ) (args : List Arg) (n : ℕ)
    → v < 2 ^ 32
    → Renders format args n
    → Renders (b'%' ∷ b'x' ∷ format) (int v ∷ args) (11 + n)
Renders-hexadecimal v format args n h rest =
    let (text, e, short) =
      printed_short 16 v 8 (omega arith) (omega arith) (omega arith) (omega arith)
        (inl (λ e. absurd (omega (arith, e)))) (omega arith) in
    Renders-converted b'x' v format text args n refl refl (rw e refl) short rest
