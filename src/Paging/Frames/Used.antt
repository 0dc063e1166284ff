-- ===== src/Paging/Frames/Used.antt =====
-- The bitset as a set of frame numbers.
use mal_os.Prelude.{
  ℕ, ◌*◌, ◌/◌, ◌%◌, ◌^◌, ◌<◌, ◌≡◌, bit_and, bit_or, ◌==◌, if◌then◌else◌, arith, ap, ◌∙◌, truth, bit,
  bit-le, bit-bit_and, bit-bit_or, bit-pow_self, bit-pow_ne, bit-complement, two_pow-lt,
  truth-digit, not32, ◌<<◌,
}
use native.Mathlib.Decide.{ℕ_discrete}
use mal_os.Paging.Frames.{FrameWords, set_frame, clear_frame, test_frame, put_word}

-- 1 if frame `n` is in use, else 0.
abbrev pub used : FrameWords → ℕ → ℕ
used frames n = bit (n % 32) (frames (n / 32))

one_digit : (j k : ℕ) → bit j (1 << k) ≡ (if j == k then 1 else 0)
one_digit j k = ap (bit j) {x = 1 * 2 ^ k} {y = 2 ^ k} (omega arith) ∙ elim (ℕ_discrete j k) [
  | yes e ↦ ap (λ t. bit t (2 ^ k)) e ∙ bit-pow_self k ∙ ground arith
  | no ne ↦ bit-pow_ne j k ne ∙ ground arith
]

frame_of_address : (n : ℕ) → n * 0x1000 / 0x1000 ≡ n
frame_of_address n = omega arith

-- A frame is another one in the bitset's coordinates too.
same_frame : (m n : ℕ) → m / 32 ≡ n / 32 → (m % 32 == n % 32) ≡ (m == n)
same_frame m n h = ground arith

-- What a word put at the place of frame `n` says of frame `m`.
used-put_word :
    (n m w : ℕ) (frames : FrameWords)
    → used (put_word frames (n / 32) w) m
      ≡ (if m / 32 == n / 32 then bit (m % 32) w else used frames m)
used-put_word n m w frames = ground arith

-- `set_frame` at the address of frame `n` puts that frame into use, and no other frame changes.
pub used-set_frame :
    (n m : ℕ) (frames : FrameWords)
    → used (set_frame (n * 0x1000) frames) m ≡ (if m == n then 1 else used frames m)
unfolding set_frame
used-set_frame n m frames =
    let w = bit_or (frames (n / 32)) (1 << (n % 32)) in
    rw (frame_of_address n) (
      used-put_word n m w frames ∙ elim (ℕ_discrete (m / 32) (n / 32)) [
        | yes e ↦ ground (
          arith,
          bit-bit_or (m % 32) (frames (n / 32)) (1 << (n % 32)),
          one_digit (m % 32) (n % 32),
          bit-le (m % 32) (frames (n / 32)),
          ap frames e,
        )
        | no ne ↦ ground arith
      ])

-- `clear_frame` at the address of frame `n` frees that frame, and no other frame changes.
pub used-clear_frame :
    (n m : ℕ) (frames : FrameWords)
    → used (clear_frame (n * 0x1000) frames) m ≡ (if m == n then 0 else used frames m)
unfolding clear_frame
used-clear_frame n m frames =
    let w = bit_and (frames (n / 32)) (not32 (1 << (n % 32))) in
    let small : 1 << (n % 32) < 2 ^ 32 = omega (arith, two_pow-lt (n % 32) 32 (omega arith)) in
    rw (frame_of_address n) (
      used-put_word n m w frames ∙ elim (ℕ_discrete (m / 32) (n / 32)) [
        | yes e ↦ ground (
          arith,
          bit-bit_and (m % 32) (frames (n / 32)) (not32 (1 << (n % 32))),
          bit-complement 32 (m % 32) (1 << (n % 32)) small (omega arith),
          one_digit (m % 32) (n % 32),
          bit-le (m % 32) (frames (n / 32)),
          ap frames e,
        )
        | no ne ↦ ground arith
      ])

-- `test_frame` at the address of frame `n` tells whether that frame is in use.
pub used-test_frame :
    (n : ℕ) (frames : FrameWords) → truth (test_frame (n * 0x1000) frames) ≡ (used frames n == 1)
unfolding test_frame
used-test_frame n frames = rw (frame_of_address n) (truth-digit (n % 32) (frames (n / 32)))
