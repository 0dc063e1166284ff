-- ===== src/Paging/Frames/First.antt =====
-- `first_frame` finds the first frame that is free.
use mal_os.Prelude.{
  truth-digit, ℕ, zero, suc, ◌+◌, ◌-◌, ◌*◌, ◌/◌, ◌%◌, ◌^◌, ◌≤◌, ◌<◌, ◌≡◌, refl, ◌⊎◌, inl, inr, ◌==◌,
  arith, ap, ◌∙◌, subst, bit, bit-le, bit-ones, Option, none, some, Bool-cases, u32,
}
use native.Mathlib.Decide.{ℕ_discrete, dec_lt}
use mal_os.Paging.Frames.{FrameWords, scan_word, scan_frames, first_frame}
use mal_os.Paging.Frames.Used.{used}

-- The digits of a word from `lo` to `hi` are ones; the frames from `lo` to `hi` are in use.
abbrev Ones : ℕ → ℕ → ℕ → Type 0
Ones lo hi w = (j : ℕ) → lo ≤ j → j < hi → bit j w ≡ 1

abbrev pub AllUsed : ℕ → ℕ → FrameWords → Type 0
AllUsed lo hi frames = (m : ℕ) → lo ≤ m → m < hi → used frames m ≡ 1

-- What the inner loop found from digit `lo` on, below `hi`.
abbrev WordFirst : ℕ → ℕ → ℕ → Option ℕ → Type 0
WordFirst lo hi w none = Ones lo hi w
WordFirst lo hi w (some j) = (lo ≤ j) × (j < hi) × (bit j w ≡ 0) × Ones lo j w

-- What `first_frame` found from frame `lo` on, below `hi`.
abbrev pub FramesFirst : ℕ → ℕ → FrameWords → Option ℕ → Type 0
FramesFirst lo hi frames none = AllUsed lo hi frames
FramesFirst lo hi frames (some n) = (lo ≤ n) × (n < hi) × (used frames n ≡ 0) × AllUsed lo n frames

Ones-cons : (lo hi w : ℕ) → bit lo w ≡ 1 → Ones (lo + 1) hi w → Ones lo hi w
Ones-cons lo hi w one rest j p q = elim (ℕ_discrete lo j) [
  | yes e ↦ subst (λ j. bit j w ≡ 1) e one
  | no ne ↦ rest j (omega arith) q
]

WordFirst-cons :
    (lo hi w : ℕ) (o : Option ℕ) → bit lo w ≡ 1 → WordFirst (lo + 1) hi w o → WordFirst lo hi w o
WordFirst-cons lo hi w none one rest = Ones-cons lo hi w one rest
WordFirst-cons lo hi w (some j) one (p, q, free, rest) =
    (omega arith, q, free, Ones-cons lo j w one rest)

scan_word-WordFirst : (left lo hi w : ℕ) → lo + left ≡ hi → WordFirst lo hi w (scan_word left lo w)
unfolding scan_word
scan_word-WordFirst zero lo hi w e = λ j p q. absurd (omega arith)
scan_word-WordFirst (suc left) lo hi w e =
    rw (truth-digit lo w) (elim (Bool-cases (bit lo w == 1)) [
      | inl one ↦ rw one (
          WordFirst-cons lo hi w (scan_word left (lo + 1) w) (ground arith)
            (scan_word-WordFirst left (lo + 1) hi w (omega arith)))
      | inr free ↦
          rw free
            (omega arith, omega arith, ground (arith, bit-le lo w), λ j p q. absurd (omega arith))
    ])

used_in_word :
    (i m : ℕ) (frames : FrameWords) → m / 32 ≡ i → used frames m ≡ bit (m % 32) (frames i)
used_in_word i m frames e = ap (λ n. bit (m % 32) (frames n)) e

AllUsed-word :
    (i j : ℕ) (frames : FrameWords)
    → j ≤ 32
    → Ones 0 j (frames i)
    → AllUsed (32 * i) (32 * i + j) frames
AllUsed-word i j frames h ones m p q =
    used_in_word i m frames (omega arith) ∙ ones (m % 32) (omega arith) (omega arith)

AllUsed-append :
    (lo mid hi : ℕ) (frames : FrameWords)
    → AllUsed lo mid frames
    → AllUsed mid hi frames
    → AllUsed lo hi frames
AllUsed-append lo mid hi frames before after m p q = elim (dec_lt m mid) [
  | yes h ↦ before m p h
  | no h ↦ after m (omega arith) q
]

-- Behind a word that is full.
FramesFirst-cons :
    (i hi : ℕ) (frames : FrameWords) (o : Option ℕ)
    → Ones 0 32 (frames i)
    → FramesFirst (32 * (i + 1)) hi frames o
    → FramesFirst (32 * i) hi frames o
FramesFirst-cons i hi frames none ones rest =
    AllUsed-append (32 * i) (32 * (i + 1)) hi frames
      (λ m p q. AllUsed-word i 32 frames (omega arith) ones m p (omega arith)) rest
FramesFirst-cons i hi frames (some n) ones (p, q, free, rest) = (
  omega arith,
  q,
  free,
  AllUsed-append (32 * i) (32 * (i + 1)) n frames
      (λ m p q. AllUsed-word i 32 frames (omega arith) ones m p (omega arith)) rest,
)

-- In a word with a free frame.
FramesFirst-here :
    (i j hi : ℕ) (frames : FrameWords)
    → WordFirst 0 32 (frames i) (some j)
    → 32 * (i + 1) ≤ hi
    → hi ≤ 2 ^ 32
    → FramesFirst (32 * i) hi frames (some (u32 (i * 4 * 8 + j)))
FramesFirst-here i j hi frames (p, q, free, ones) h small =
    subst (λ n. FramesFirst (32 * i) hi frames (some n)) {x = 32 * i + j} {y = u32 (i * 4 * 8 + j)}
      (omega arith)
      (
        omega arith,
        omega arith,
        used_in_word i (32 * i + j) frames (omega arith)
            ∙ ap (λ t. bit t (frames i)) {x = (32 * i + j) % 32} {y = j} (omega arith)
            ∙ free,
        AllUsed-word i j frames (omega arith) ones,
      )

scan_frames-FramesFirst :
    (left i n : ℕ) (frames : FrameWords)
    → i + left ≡ n
    → 32 * n ≤ 2 ^ 32
    → FramesFirst (32 * i) (32 * n) frames (scan_frames left i frames)
unfolding scan_frames
scan_frames-FramesFirst zero i n frames e small = λ m p q. absurd (omega arith)
scan_frames-FramesFirst (suc left) i n frames e small =
    let rest = scan_frames-FramesFirst left (i + 1) n frames (omega arith) small in
    elim (Bool-cases (frames i == 0xFFFFFFFF)) [
      | inl full ↦ rw full (
          FramesFirst-cons i (32 * n) frames (scan_frames left (i + 1) frames)
            (λ j p q. ap (bit j) {x = frames i} {y = 2 ^ 32 - 1} (ground arith) ∙ bit-ones 32 j q)
            rest)
      | inr some_free ↦ rw some_free (
          word_step i n left frames (scan_word 32 0 (frames i))
            (scan_word-WordFirst 32 0 32 (frames i) refl) (omega arith) small rest)
    ]
  where
    word_step :
        (i n left : ℕ) (frames : FrameWords) (o : Option ℕ)
        → WordFirst 0 32 (frames i) o
        → 32 * (i + 1) ≤ 32 * n
        → 32 * n ≤ 2 ^ 32
        → FramesFirst (32 * (i + 1)) (32 * n) frames (scan_frames left (i + 1) frames)
        → FramesFirst (32 * i) (32 * n) frames (elim o as (λ x. Option ℕ) [
          | none ↦ scan_frames left (i + 1) frames
          | some j ↦ some (u32 (i * 4 * 8 + j))
        ])
    word_step i n left frames none ones h small rest =
        FramesFirst-cons i (32 * n) frames (scan_frames left (i + 1) frames) ones rest
    word_step i n left frames (some j) found h small rest =
        FramesFirst-here i j (32 * n) frames found h small

-- Of the frames below `nframes`, a multiple of 32, `first_frame` returns the first that is free; if
-- all of them are in use it returns 0.
pub first_frame_lem :
    (nframes : ℕ) (frames : FrameWords)
    → nframes % 32 ≡ 0
    → nframes ≤ 2 ^ 32
    → let n = first_frame nframes frames in
      ((n < nframes) × (used frames n ≡ 0) × AllUsed 0 n frames)
      ⊎ ((n ≡ 0) × AllUsed 0 nframes frames)
unfolding first_frame
first_frame_lem nframes frames whole small = go (scan_frames (nframes / (8 * 4)) 0 frames) (
    subst (λ hi. FramesFirst 0 hi frames (scan_frames (nframes / 32) 0 frames))
      {x = 32 * (nframes / 32)} {y = nframes} (omega arith)
      (scan_frames-FramesFirst (nframes / 32) 0 (nframes / 32) frames (omega arith) (omega arith)))
  where
    go :
        (o : Option ℕ)
        → FramesFirst 0 nframes frames o
        → let n : ℕ = elim o as (λ x. ℕ) [ none ↦ 0 | some n ↦ n ] in
          ((n < nframes) × (used frames n ≡ 0) × AllUsed 0 n frames)
          ⊎ ((n ≡ 0) × AllUsed 0 nframes frames)
    go none all = inr (refl, all)
    go (some n) (p, q, free, rest) = inl (q, free, rest)
