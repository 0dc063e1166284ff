-- ===== src/Libc/Itoa/RoundTrip.antt =====
-- What `itoa` writes, and when it stays inside its buffers.
use mal_os.Prelude.{
  ℕ, zero, suc, ◌^◌, ◌≤◌, ◌<◌, ◌≡◌, ◌≢◌, ◌⊎◌, ◌-◌, u32, Bool-cases, refl, inl, inr, ◌==◌,
  if◌then◌else◌, Bool, true, false, Option, none, some, List, [], ◌∷◌, ◌++◌, length, arith, All, ap,
  ◌∙◌, ◌↔◌,
}
use native.Mathlib.Decide.{dec_le, ℕ_discrete}
use native.Mathlib.Nat.{zero-div, zero-mod}
use mal_os.Libc.Itoa.{itoa, emit, finish, finish_all, is_negative, magnitude}
use mal_os.Libc.Itoa.Digits.{
  number, IsDigit, IsCanonical, Leads, emit_total, emit_overrun, emit_more, emit_done,
}

abbrev pub sign : ℕ → ℕ → List ℕ
sign value base = if is_negative value base then b'-' ∷ [] else []

-- INT_MIN is not negated.
abbrev pub Negates : ℕ → ℕ → Type 0
Negates value base = (base ≢ 10) ⊎ (value ≢ 2 ^ 31)

-- The absolute value in base 10, and the pattern as a number in another base.
abbrev pub size : ℕ → ℕ → ℕ
size value base = if is_negative value base then 2 ^ 32 - value else value

magnitude-size :
    (value base : ℕ) → Negates value base → magnitude value base ≡ some (size value base)
magnitude-size value base (inl ne) = ground arith
magnitude-size value base (inr ne) = elim (Bool-cases (is_negative value base)) [
  | inl e ↦
      let other : (value == 2 ^ 31) ≡ false = ground arith in
      rw (e, other) (ap some {x = u32 (2 ^ 32 - value)} {y = 2 ^ 32 - value} (ground arith))
  | inr e ↦ rw e refl
]

magnitude-none : (value base : ℕ) → base ≡ 10 → value ≡ 2 ^ 31 → magnitude value base ≡ none
magnitude-none value base ten low = rw (ten, low) refl

-- `ds` is the usual notation of the magnitude in at most `n` digits.
pub record IsNotation (base n v : ℕ) (ds : List ℕ) : Type 0 where
  pub reads : number base 0 ds ≡ v
  pub digits : All (IsDigit base) ds
  pub canonical : IsCanonical ds
  pub short : length ds ≤ n

IsCanonical-of_Leads : (ds : List ℕ) → Leads ds → IsCanonical ds
IsCanonical-of_Leads [] l = l
IsCanonical-of_Leads (c ∷ []) l = tt
IsCanonical-of_Leads (c ∷ d ∷ s) l = l

finish_lem :
    (negative : Bool) (ds : List ℕ)
    → let s : List ℕ = if negative then b'-' ∷ [] else [] in
      finish negative ds ≡ (length (s ++ ds), (s ++ ds) ++ 0 ∷ [])
unfolding finish
finish_lem true ds = ap (λ n. (n, b'-' ∷ (ds ++ 0 ∷ []))) (omega arith)
finish_lem false ds = refl

-- `none` comes from the digit loop alone.
wrap_none : (negative : Bool) (o : Option (List ℕ)) → finish_all negative o ≡ none → o ≡ none
wrap_none negative none e = refl
wrap_none negative (some tmp) e = cc

module _ (base : ℕ) (two : 2 ≤ base) (most : base ≤ 36) where
  emit_zero : emit 16 base 0 [] ≡ some (b'0' ∷ [])
  emit_zero =
      emit_more base two most 15 0 [] (inr refl)
      ∙ rw (zero-div, zero-mod) (emit_done base two most 15 b'0' [])

  emit-IsNotation :
      (n v : ℕ)
      → 1 ≤ n
      → n ≤ 16
      → v < base ^ n
      → (ds : List ℕ) × (emit 16 base v [] ≡ some ds) × IsNotation base n v ds
  emit-IsNotation n zero one fits lt = (
    b'0' ∷ [],
    emit_zero,
    record { reads = omega arith; digits = ground arith; canonical = tt; short = omega arith },
  )
  emit-IsNotation n (suc v) one fits lt =
      let (ds, e, emitted) = emit_total base two most n 16 (suc v) [] fits lt (inl one) in
      (
        ds,
        e,
        record {
          reads = emitted.reads;
          digits = emitted.digits tt;
          canonical = IsCanonical-of_Leads ds (emitted.leads (inl (cc)));
          short = omega (arith, emitted.short);
        },
      )

  -- For a base from 2 to 36 and a value whose magnitude has at most `n` digits in it, with `n` from
  -- 1 to 16, and which is not INT_MIN in base 10, `itoa` returns: it writes a minus sign exactly for a negative value in base 10, the
  -- usual notation of the magnitude, and a NUL, and it returns the number of the bytes before the NUL.
  pub itoa-IsNotation :
      (value n : ℕ)
      → 1 ≤ n
      → n ≤ 16
      → Negates value base
      → size value base < base ^ n
      → (ds : List ℕ) × (itoa value base
          ≡ some (length (sign value base ++ ds), (sign value base ++ ds) ++ 0 ∷ []))
        × IsNotation base n (size value base) ds
  unfolding itoa
  itoa-IsNotation value n one fits negates lt =
      let (ds, e, notation) = emit-IsNotation n (size value base) one fits lt in
      let some_base : (base == 0) ≡ false = ground arith in
      (
        ds,
        rw (some_base, magnitude-size value base negates, e)
            (ap some (finish_lem (is_negative value base) ds)),
        notation,
      )

  -- For a base from 2 to 36, `itoa` comes to undefined behaviour exactly when it negates INT_MIN, which
  -- it does in base 10, or when it overruns its buffer of 16 digits, as the magnitude has more.
  pub itoa_overruns_iff :
      (value : ℕ)
      → (itoa value base ≡ none) ↔ ((base ≡ 10) × (value ≡ 2 ^ 31)) ⊎ (base ^ 16 ≤ size value base)
  unfolding itoa
  itoa_overruns_iff value = elim (ℕ_discrete base 10) [
    | yes ten ↦ elim (ℕ_discrete value (2 ^ 31)) [
      | yes low ↦ (λ e. inl (ten, low), λ h. itoa_none ten low)
      | no high ↦ negated (inr high)
    ]
    | no other ↦ negated (inl other)
  ]
    where
      itoa_none : base ≡ 10 → value ≡ 2 ^ 31 → itoa value base ≡ none
      itoa_none ten low = rw (ten, low) refl

      negated :
          Negates value base
          → (itoa value base ≡ none)
            ↔ ((base ≡ 10) × (value ≡ 2 ^ 31)) ⊎ (base ^ 16 ≤ size value base)
      negated negates =
          let v = size value base in
          let some_base : (base == 0) ≡ false = ground arith in
          rw (some_base, magnitude-size value base negates)
            (
              λ e. elim (dec_le (base ^ 16) v) [
                | yes h ↦ inr h
                | no h ↦
                    let (ds, found, _) =
                      emit-IsNotation 16 v (omega arith) (omega arith) (omega arith) in
                    absurd (cc (wrap_none (is_negative value base) _ e))
              ],
              elim [
                | inl (ten, low) ↦ absurd (ground (arith, negates))
                | inr h ↦ rw (emit_overrun base two most 16 v [] h)
              ],
            )
