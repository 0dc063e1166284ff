-- ===== src/Prelude/Bits.antt =====
-- `&` and `|` at variables. `bit k w` is binary digit `k` of `w`: a number is determined by its
-- digits, and the operations act digit by digit.
use Prim.Native.Nat.{ℕ, zero, suc, ◌+◌, ◌-◌, ◌*◌, ◌/◌, ◌%◌, ◌^◌, ◌≤◌, ◌<◌, min, max}
use Prim.Native.Nat.{digits, bit_and, bit_or, bit_and-bitwise, bit_or-bitwise}
use mathlib.Core.Path.{◌≡◌, refl, ◌∙◌, ap, ap₂, sym}
use mathlib.Core.Logic.{◌≢◌}
use native.Mathlib.Nat.{pow-suc, pow-succ', one-le-pow, div-div-eq-div-mul}
use native.Mathlib.Omega.{arith}
use mal_os.Prelude.Tests.{◌==◌}
use mal_os.Prelude.Word.{truth, ◌<<◌}

module _ (z : ℕ → ℕ) (f : ℕ → ℕ → ℕ) where
  -- Any two counts of rounds that reach past the last digit of `a` give the same result.
  enough_rounds : (n a b k : ℕ) → a ≤ n → a ≤ k → digits z f n a b ≡ digits z f k a b
  enough_rounds zero a b zero p q = refl
  enough_rounds (suc n) zero b zero p q = refl
  enough_rounds (suc n) (suc a) b zero p q = absurd (omega arith)
  enough_rounds zero zero b (suc k) p q = refl
  enough_rounds zero (suc a) b (suc k) p q = absurd (omega arith)
  enough_rounds (suc n) zero b (suc k) p q = refl
  enough_rounds (suc n) (suc a) b (suc k) p q =
      ap (λ d. d * 2 + f (suc a % 2) (b % 2))
        (enough_rounds n (suc a / 2) (b / 2) k (omega arith) (omega arith))

pub bit_and-halves : (a b : ℕ) → bit_and a b ≡ bit_and (a / 2) (b / 2) * 2 + min (a % 2) (b % 2)
bit_and-halves zero b = omega (arith, bit_and-bitwise 0 b, bit_and-bitwise 0 (b / 2))
bit_and-halves (suc a) b = omega (
  arith,
  bit_and-bitwise (suc a) b,
  bit_and-bitwise (suc a / 2) (b / 2),
  enough_rounds (λ _. 0) min a (suc a / 2) (b / 2) (suc a / 2) (omega arith) (omega arith),
)

pub bit_or-halves : (a b : ℕ) → bit_or a b ≡ bit_or (a / 2) (b / 2) * 2 + max (a % 2) (b % 2)
bit_or-halves zero b = omega (arith, bit_or-bitwise 0 b, bit_or-bitwise 0 (b / 2))
bit_or-halves (suc a) b = omega (
  arith,
  bit_or-bitwise (suc a) b,
  bit_or-bitwise (suc a / 2) (b / 2),
  enough_rounds (λ x. x) max a (suc a / 2) (b / 2) (suc a / 2) (omega arith) (omega arith),
)

abbrev pub bit : ℕ → ℕ → ℕ
bit zero w = w % 2
bit (suc k) w = bit k (w / 2)

pub bit-le : (k w : ℕ) → bit k w ≤ 1
bit-le zero w = omega arith
bit-le (suc k) w = bit-le k (w / 2)

pub bit-bit_and : (k a b : ℕ) → bit k (bit_and a b) ≡ min (bit k a) (bit k b)
bit-bit_and zero a b = omega (arith, bit_and-halves a b)
bit-bit_and (suc k) a b =
    ap (bit k) (omega (arith, bit_and-halves a b)) ∙ bit-bit_and k (a / 2) (b / 2)

pub bit-bit_or : (k a b : ℕ) → bit k (bit_or a b) ≡ max (bit k a) (bit k b)
bit-bit_or zero a b = omega (arith, bit_or-halves a b)
bit-bit_or (suc k) a b =
    ap (bit k) (omega (arith, bit_or-halves a b)) ∙ bit-bit_or k (a / 2) (b / 2)

pub bit-zero : (k : ℕ) → bit k 0 ≡ 0
bit-zero zero = refl
bit-zero (suc k) = bit-zero k

-- Two numbers below `2 ^ n` with the same first `n` digits are equal.
pub bit_ext : (n a b : ℕ) → a < 2 ^ n → b < 2 ^ n → ((k : ℕ) → k < n → bit k a ≡ bit k b) → a ≡ b
bit_ext zero a b p q h = omega arith
bit_ext (suc n) a b p q h = omega (
  arith,
  h 0 (omega arith),
  bit_ext n (a / 2) (b / 2) (omega (arith, pow-suc 2 n)) (omega (arith, pow-suc 2 n))
      (λ k lt. h (suc k) (omega arith)),
)

-- A single set digit.
pub bit-pow_self : (k : ℕ) → bit k (2 ^ k) ≡ 1
bit-pow_self zero = refl
bit-pow_self (suc k) = ap (bit k) (omega (arith, pow-suc 2 k)) ∙ bit-pow_self k

pub bit-pow_ne : (j k : ℕ) → j ≢ k → bit j (2 ^ k) ≡ 0
bit-pow_ne zero zero h = absurd (h refl)
bit-pow_ne zero (suc k) h = omega (arith, pow-suc 2 k)
bit-pow_ne (suc j) zero h = bit-zero j
bit-pow_ne (suc j) (suc k) h =
    ap (bit j) (omega (arith, pow-suc 2 k)) ∙ bit-pow_ne j k (λ e. h (ap suc e))

-- The digits of the complement in `n` digits.
pub bit-complement : (n k w : ℕ) → w < 2 ^ n → k < n → bit k (2 ^ n - 1 - w) ≡ 1 - bit k w
bit-complement zero k w h p = absurd (omega arith)
bit-complement (suc n) zero w h p = omega (arith, pow-suc 2 n)
bit-complement (suc n) (suc k) w h p =
    ap (bit k) (omega (arith, pow-suc 2 n))
    ∙ bit-complement n k (w / 2) (omega (arith, pow-suc 2 n)) (omega arith)

-- Digits past a bound on the number are 0, and a number with none is 0.
pub bit_above : (n k w : ℕ) → w < 2 ^ n → n ≤ k → bit k w ≡ 0
bit_above zero k w h p = ap (bit k) (omega arith) ∙ bit-zero k
bit_above (suc n) zero w h p = absurd (omega arith)
bit_above (suc n) (suc k) w h p = bit_above n k (w / 2) (omega (arith, pow-suc 2 n)) (omega arith)

both_zero : (a b : ℕ) → a ≡ 0 → b ≡ 0 → bit_or a b ≡ 0
both_zero a b p q = ap₂ bit_or p q

pub bit_or-lt : (n a b : ℕ) → a < 2 ^ n → b < 2 ^ n → bit_or a b < 2 ^ n
bit_or-lt zero a b p q = omega (arith, bit_or-halves a b, both_zero a b (omega arith) (omega arith))
bit_or-lt (suc n) a b p q = omega (
  arith,
  bit_or-halves a b,
  pow-suc 2 n,
  bit_or-lt n (a / 2) (b / 2) (omega (arith, pow-suc 2 n)) (omega (arith, pow-suc 2 n)),
)

pub bit_and-le : (n a b : ℕ) → a < 2 ^ n → bit_and a b ≤ a
bit_and-le zero a b p =
    omega (arith, bit_and-bitwise 0 b, ap (λ t. bit_and t b) {x = a} {y = 0} (omega arith))
bit_and-le (suc n) a b p =
    omega (arith, bit_and-halves a b, bit_and-le n (a / 2) (b / 2) (omega (arith, pow-suc 2 n)))

-- By halving, with a bound on `a` for a measure.
no_mask : (n a : ℕ) → a ≤ n → (bit_and a 0 ≡ 0) × (bit_or a 0 ≡ a)
no_mask n zero h = (refl, refl)
no_mask zero (suc a) h = absurd (omega arith)
no_mask (suc n) (suc a) h =
    omega (
      arith,
      bit_and-halves (suc a) 0,
      bit_or-halves (suc a) 0,
      no_mask n (suc a / 2) (omega arith),
    )

pub bit_and-zero : (a : ℕ) → bit_and a 0 ≡ 0
bit_and-zero a = (no_mask a a (omega arith)).0

pub bit_or-zero : (a : ℕ) → bit_or a 0 ≡ a
bit_or-zero a = (no_mask a a (omega arith)).1

-- `&` with `n` ones is the remainder; `&` with a shifted mask masks the shifted number; and `|`
-- with a number that fits below the shift is a sum.
pub bit_and-ones : (n a : ℕ) → bit_and a (2 ^ n - 1) ≡ a % 2 ^ n
bit_and-ones zero a = omega (arith, bit_and-zero a)
bit_and-ones (suc n) a = ground (
  arith,
  bit_and-halves a (2 ^ suc n - 1),
  pow-suc 2 n,
  one-le-pow n 2,
  bit_and-ones n (a / 2),
  div-div-eq-div-mul a 2 (2 ^ n),
)

pub bit_and-shifted : (k m a : ℕ) → bit_and a (m * 2 ^ k) ≡ bit_and (a / 2 ^ k) m * 2 ^ k
bit_and-shifted zero m a = ground arith
bit_and-shifted (suc k) m a =
    rw (pow-succ' 2 k, ← div-div-eq-div-mul a 2 (2 ^ k))
      (omega (
        arith,
        bit_and-halves a (m * (2 * 2 ^ k)),
        ap (bit_and (a / 2)) {x = m * (2 * 2 ^ k) / 2} {y = m * 2 ^ k} (omega arith),
        bit_and-shifted k m (a / 2),
      ))

pub bit_or-shifted : (k q r : ℕ) → r < 2 ^ k → bit_or (q * 2 ^ k) r ≡ q * 2 ^ k + r
bit_or-shifted zero q r h = ground (arith, bit_or-zero q)
bit_or-shifted (suc k) q r h = ground (
  arith,
  bit_or-halves (q * 2 ^ suc k) r,
  pow-suc 2 k,
  ap (λ (t : ℕ). q * t) (pow-suc 2 k),
  bit_or-shifted k q (r / 2) (omega (arith, pow-suc 2 k)),
)

-- A number below `2 ^ k` beside a multiple of it.
pub bit_or_beside : (k q r x : ℕ) → x ≡ q * 2 ^ k → r < 2 ^ k → bit_or x r ≡ x + r
bit_or_beside k q r x e h = ap (λ z. bit_or z r) e ∙ bit_or-shifted k q r h ∙ omega arith

or_comm_below : (n a b : ℕ) → a ≤ n → bit_or a b ≡ bit_or b a
or_comm_below n zero b h = omega (arith, bit_or-bitwise 0 b, bit_or-zero b)
or_comm_below zero (suc a) b h = absurd (omega arith)
or_comm_below (suc n) (suc a) b h = omega (
  arith,
  bit_or-halves (suc a) b,
  bit_or-halves b (suc a),
  or_comm_below n (suc a / 2) (b / 2) (omega arith),
)

pub bit_or_comm : (a b : ℕ) → bit_or a b ≡ bit_or b a
bit_or_comm a b = or_comm_below a a b (omega arith)

-- Both operations act separately above and below any digit.
pub bit_or-split :
    (k q r h l : ℕ)
    → r < 2 ^ k
    → l < 2 ^ k
    → bit_or (q * 2 ^ k + r) (h * 2 ^ k + l) ≡ bit_or q h * 2 ^ k + bit_or r l
bit_or-split zero q r h l p s = ground (arith, both_zero r l (omega arith) (omega arith))
bit_or-split (suc k) q r h l p s = rw (pow-succ' 2 k) (
    omega (
      arith,
      bit_or-halves (q * (2 * 2 ^ k) + r) (h * (2 * 2 ^ k) + l),
      ap₂ bit_or {x = (q * (2 * 2 ^ k) + r) / 2} {y = q * 2 ^ k + r / 2}
          {u = (h * (2 * 2 ^ k) + l) / 2} {v = h * 2 ^ k + l / 2} (omega arith) (omega arith),
      bit_or-halves r l,
      bit_or-split k q (r / 2) h (l / 2) (omega (arith, pow-suc 2 k)) (omega (arith, pow-suc 2 k)),
    ))

and_both_zero :
    (q r h l : ℕ) → r ≡ 0 → l ≡ 0 → bit_and (q * 1 + r) (h * 1 + l) ≡ bit_and q h * 1 + bit_and r l
and_both_zero q r h l e d = omega (
  arith,
  ap₂ bit_and {x = q * 1 + r} {y = q} {u = h * 1 + l} {v = h} (omega arith) (omega arith),
  ap (bit_and r) d,
  bit_and-zero r,
)

pub bit_and-split :
    (k q r h l : ℕ)
    → r < 2 ^ k
    → l < 2 ^ k
    → bit_and (q * 2 ^ k + r) (h * 2 ^ k + l) ≡ bit_and q h * 2 ^ k + bit_and r l
bit_and-split zero q r h l p s = and_both_zero q r h l (omega arith) (omega arith)
bit_and-split (suc k) q r h l p s = rw (pow-succ' 2 k) (
    omega (
      arith,
      bit_and-halves (q * (2 * 2 ^ k) + r) (h * (2 * 2 ^ k) + l),
      ap₂ bit_and {x = (q * (2 * 2 ^ k) + r) / 2} {y = q * 2 ^ k + r / 2}
          {u = (h * (2 * 2 ^ k) + l) / 2} {v = h * 2 ^ k + l / 2} (omega arith) (omega arith),
      bit_and-halves r l,
      bit_and-split k q (r / 2) h (l / 2) (omega (arith, pow-suc 2 k)) (omega (arith, pow-suc 2 k)),
    ))

pub two_pow-lt : (k n : ℕ) → k < n → 2 ^ k < 2 ^ n
two_pow-lt k zero h = absurd (omega arith)
two_pow-lt zero (suc n) h = omega (arith, pow-suc 2 n, one-le-pow n 2)
two_pow-lt (suc k) (suc n) h = omega (arith, pow-suc 2 k, pow-suc 2 n, two_pow-lt k n (omega arith))

bit-eq-div-mod : (k w : ℕ) → bit k w ≡ w / 2 ^ k % 2
bit-eq-div-mod zero w = omega arith
bit-eq-div-mod (suc k) w =
    rw (pow-succ' 2 k, ← div-div-eq-div-mul w 2 (2 ^ k)) (bit-eq-div-mod k (w / 2))

-- `&` with a single digit.
pub bit_and-two_pow : (k w : ℕ) → bit_and w (2 ^ k) ≡ bit k w * 2 ^ k
bit_and-two_pow k w = omega (
  arith,
  ap (bit_and w) {x = 1 * 2 ^ k} {y = 2 ^ k} (omega arith),
  bit_and-shifted k 1 w,
  ap (λ (t : ℕ). t * 2 ^ k) (bit_and-ones 1 (w / 2 ^ k) ∙ sym (bit-eq-div-mod k w)),
)

-- All digits of 2 ^ n - 1 are ones.
pub bit-ones : (n k : ℕ) → k < n → bit k (2 ^ n - 1) ≡ 1
bit-ones n k h =
    ap (bit k) {x = 2 ^ n - 1} {y = 2 ^ n - 1 - 0} (omega arith)
    ∙ bit-complement n k 0 (one-le-pow n 2 (omega arith)) h
    ∙ ap (λ (b : ℕ). 1 - b) (bit-zero k)

truth_of_digit : (b p : ℕ) → b ≤ 1 → 1 ≤ p → truth (b * p) ≡ (b == 1)
truth_of_digit zero p h g = ap truth {x = 0 * p} {y = 0} (omega arith)
truth_of_digit (suc zero) p h g = ground arith
truth_of_digit (suc (suc b)) p h g = absurd (omega arith)

-- The code's test of a digit.
pub truth-digit : (k w : ℕ) → truth (bit_and w (1 << k)) ≡ (bit k w == 1)
truth-digit k w =
    ap truth (ap (bit_and w) {x = 1 * 2 ^ k} {y = 2 ^ k} (omega arith) ∙ bit_and-two_pow k w)
    ∙ truth_of_digit (bit k w) (2 ^ k) (bit-le k w) (one-le-pow k 2 (omega arith))
