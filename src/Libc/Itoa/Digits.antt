-- ===== src/Libc/Itoa/Digits.antt =====
-- The digit loop: what it leaves in `tmp`, and when it overruns it.
use mal_os.Prelude.{
  ℕ, zero, suc, ◌+◌, ◌-◌, ◌*◌, ◌/◌, ◌%◌, ◌^◌, ◌≤◌, ◌<◌, ◌≡◌, ◌≢◌, refl, ◌⊎◌, inl, inr, ◌==◌, ltb,
  if◌then◌else◌, none, some, List, [], ◌∷◌, length, arith, All, false, subst, sym, ap, ◌∙◌,
}
use native.Mathlib.Nat.{
  pow-zero, pow-suc, div-lt_iff_lt-mul, one-le-pow, le-div_iff_mul-le, mod-lt, div-add-mod',
}
use native.Mathlib.Decide.{ℕ_discrete}
use mal_os.Libc.Itoa.{digit_char, emit}

-- The value of a digit, and of a string of digits read behind the number `n`.
abbrev pub digit_value : ℕ → ℕ
digit_value c = if ltb c b'a' then c - b'0' else c - b'a' + 10

abbrev pub number : ℕ → ℕ → List ℕ → ℕ
number base n [] = n
number base n (c ∷ s) = number base (n * base + digit_value c) s

abbrev pub IsDigit : ℕ → ℕ → Type 0
IsDigit base c = (digit_value c < base) × (((b'0' ≤ c) × (c ≤ b'9')) ⊎ ((b'a' ≤ c) × (c ≤ b'z')))

-- The digits of a number in the usual form: not empty, and no leading zero but of "0" itself.
abbrev pub IsCanonical : List ℕ → Type 0
IsCanonical [] = ⊥
IsCanonical (c ∷ []) = Unit
IsCanonical (c ∷ d ∷ s) = c ≢ b'0'

digit_char-IsDigit : (base i : ℕ) → base ≤ 36 → i < base → IsDigit base (digit_char i)
digit_char-IsDigit base i h lt = (ground arith, ground arith)

digit_value-digit_char : (i : ℕ) → i < 36 → digit_value (digit_char i) ≡ i
digit_value-digit_char i h = ground arith

-- Leading digit not zero.
abbrev pub Leads : List ℕ → Type 0
Leads [] = ⊥
Leads (c ∷ s) = c ≢ b'0'

pub record Emitted (base n v : ℕ) (tmp out : List ℕ) : Type 0 where
  pub reads : number base 0 out ≡ number base v tmp
  pub digits : All (IsDigit base) tmp → All (IsDigit base) out
  pub short : length out ≤ n + length tmp
  pub leads : (v ≢ 0) ⊎ Leads tmp → Leads out

module _ (base : ℕ) (two : 2 ≤ base) (most : base ≤ 36) where
  pub emit_done : (room : ℕ) (c : ℕ) (tmp : List ℕ) → emit room base 0 (c ∷ tmp) ≡ some (c ∷ tmp)
  unfolding emit
  emit_done zero c tmp = refl
  emit_done (suc room) c tmp = refl

  pub emit_more :
      (room v : ℕ) (tmp : List ℕ)
      → (v ≢ 0) ⊎ (tmp ≡ [])
      → emit (suc room) base v tmp ≡ emit room base (v / base) (digit_char (v % base) ∷ tmp)
  unfolding emit
  emit_more room v [] h = ground arith
  emit_more room v (c ∷ tmp) h = ground arith

  quotient-lt : (n v : ℕ) → v < base ^ suc n → v / base < base ^ n
  quotient-lt n v h = (div-lt_iff_lt-mul (omega arith)).1 (omega (arith, pow-suc base n))

  -- One more digit in front of the result for the quotient.
  not_zero : (v : ℕ) (tmp : List ℕ) → (v ≢ 0) ⊎ (tmp ≡ []) → (v ≢ 0) ⊎ Leads tmp → v ≢ 0
  not_zero v tmp (inl ne) h = ne
  not_zero v tmp (inr e) (inl ne) = ne
  not_zero v tmp (inr e) (inr l) = absurd (subst Leads e l)

  digit_leads : (v : ℕ) → v ≢ 0 → (v / base ≢ 0) ⊎ (digit_char (v % base) ≢ b'0')
  digit_leads v ne = elim (ℕ_discrete (v / base) 0) [
    | yes e ↦
        let same : v % base ≡ v = omega (arith, div-add-mod' v base, ap (λ (q : ℕ). q * base) e) in
        inr (rw same (ground arith))
    | no q ↦ inl q
  ]

  Emitted-push :
      {n v : ℕ} {tmp out : List ℕ}
      → (v ≢ 0) ⊎ (tmp ≡ [])
      → Emitted base n (v / base) (digit_char (v % base) ∷ tmp) out
      → Emitted base (suc n) v tmp out
  Emitted-push {n} {v} {tmp} {out} start e = record {
    reads = e.reads ∙ ap (λ t. number base t tmp) last_digit;
    digits = λ all. e.digits (digit_char-IsDigit base (v % base) most below, all);
    short = omega (arith, e.short);
    leads = λ l. e.leads (digit_leads v (not_zero v tmp start l));
  }
    where
      below : v % base < base
      below = mod-lt v (omega arith)

      last_digit : v / base * base + digit_value (digit_char (v % base)) ≡ v
      last_digit =
          omega (arith, digit_value-digit_char (v % base) (omega arith), div-add-mod' v base)

  Emitted-done : (n c : ℕ) (tmp : List ℕ) → Emitted base n 0 (c ∷ tmp) (c ∷ tmp)
  Emitted-done n c tmp = record {
    reads = refl;
    digits = λ all. all;
    short = omega arith;
    leads = elim [ inl ne ↦ absurd (ne refl) | inr l ↦ l ];
  }

  abbrev pub Emits : ℕ → ℕ → ℕ → List ℕ → Type 0
  Emits n room v tmp = (out : List ℕ) × (emit room base v tmp ≡ some out) × Emitted base n v tmp out

  done-Emits : (n room v c : ℕ) (tmp : List ℕ) → v ≡ 0 → Emits n room v (c ∷ tmp)
  done-Emits n room v c tmp e =
      subst (λ v. Emits n room v (c ∷ tmp)) (sym e)
        (c ∷ tmp, emit_done room c tmp, Emitted-done n c tmp)

  push-Emits :
      (n room v : ℕ) (tmp : List ℕ)
      → (v ≢ 0) ⊎ (tmp ≡ [])
      → Emits n room (v / base) (digit_char (v % base) ∷ tmp)
      → Emits (suc n) (suc room) v tmp
  push-Emits n room v tmp start (out, e, emitted) =
      (out, emit_more room v tmp start ∙ e, Emitted-push start emitted)

  -- With room for as many digits as the number has, the loop ends without an overrun.
  pub emit_total :
      (n room v : ℕ) (tmp : List ℕ)
      → n ≤ room
      → v < base ^ n
      → (1 ≤ n) ⊎ (tmp ≢ [])
      → Emits n room v tmp
  emit_total zero room v [] h lt start = absurd (ground arith)
  emit_total zero room v (c ∷ tmp) h lt start =
      done-Emits 0 room v c tmp (omega (arith, pow-zero base))
  emit_total (suc n) zero v tmp h lt start = absurd (omega arith)
  emit_total (suc n) (suc room) v [] h lt start = push-Emits n room v [] (inr refl) (
      emit_total n room (v / base) (digit_char (v % base) ∷ []) (omega arith) (quotient-lt n v lt)
        (inr (cc)))
  emit_total (suc n) (suc room) v (c ∷ tmp) h lt start = elim (ℕ_discrete v 0) [
    | yes e ↦ done-Emits (suc n) (suc room) v c tmp e
    | no ne ↦ push-Emits n room v (c ∷ tmp) (inl ne) (
        emit_total n room (v / base) (digit_char (v % base) ∷ c ∷ tmp) (omega arith)
          (quotient-lt n v lt) (inr (cc)))
  ]

  nonzero : (n v : ℕ) → base ^ n ≤ v → (v == 0) ≡ false
  nonzero n v h = let positive : 1 ≤ base ^ n = one-le-pow n base (omega arith) in ground arith

  -- With less room than that it overruns the buffer.
  pub emit_overrun : (room v : ℕ) (tmp : List ℕ) → base ^ room ≤ v → emit room base v tmp ≡ none
  unfolding emit
  emit_overrun zero v tmp h = rw (nonzero 0 v h)
  emit_overrun (suc room) v tmp h =
      rw (nonzero (suc room) v h)
        (emit_overrun room (v / base) (digit_char (v % base) ∷ tmp) enough)
    where
      enough : base ^ room ≤ v / base
      enough = (le-div_iff_mul-le (omega arith)).1 (omega (arith, pow-suc base room))
