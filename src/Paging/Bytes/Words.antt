-- ===== src/Paging/Bytes/Words.antt =====
-- The words of the bitset and of the tables.
use mal_os.Prelude.{
  ℕ, zero, suc, ◌+◌, ◌*◌, ◌/◌, ◌%◌, ◌^◌, ◌<◌, ◌≤◌, ◌≡◌, ◌≢◌, ◌∙◌, ap, ◌==◌, if◌then◌else◌, bit,
  bit_or, bit_or-halves, ◌⊎◌, arith, sym, ◌<<◌, two_pow-lt,
}
use native.Mathlib.Decide.{ℕ_discrete}
use mal_os.Libc.Memory.{Mem}
use mal_os.Kernel.Processor.{load_double, store_double}
use mal_os.Kernel.Processor.Stack.{load-store_double, load-store_apart}
use mal_os.Paging.Frames.{FrameWords, set_frame, put_word}
use mal_os.Paging.Frames.Used.{used, used-set_frame}
use mal_os.Paging.Bytes.{page_of_word, word_of_page}

-- A page that is present, with a frame.
pub page_of_word_lem :
    (rw_bit user n : ℕ) (p : ℕ)
    → rw_bit < 2
    → user < 2
    → n < 2 ^ 20
    → let w =
        word_of_page
          (record (page_of_word p) { present = 1; rw_bit = rw_bit; user = user; frame = n }) in
      (w < 2 ^ 32) × ((page_of_word w).present ≡ 1) × ((page_of_word w).frame ≡ n)
page_of_word_lem rw_bit user n p hr hu hn = (omega arith, omega arith, omega arith)

pub bit_or-lt : (k a b : ℕ) → a < 2 ^ k → b < 2 ^ k → bit_or a b < 2 ^ k
bit_or-lt zero a b ha hb =
    let a₀ : a ≡ 0 = omega arith in let b₀ : b ≡ 0 = omega arith in rw (a₀, b₀) (omega arith)
bit_or-lt (suc k) a b ha hb =
    omega (arith, bit_or-halves a b, bit_or-lt k (a / 2) (b / 2) (omega arith) (omega arith))

-- The words of an array, of which one is stored.
abbrev pub words : Mem → ℕ → FrameWords
words m f n = load_double m (f + 4 * n)

pub words-store_double :
    (m : Mem) (f i v n : ℕ)
    → v < 2 ^ 32
    → words (store_double m (f + 4 * i) v) f n ≡ put_word (words m f) i v n
words-store_double m f i v n h = elim (ℕ_discrete n i) [
  | yes e ↦ rw e (load-store_double m (f + 4 * i) v h ∙ ground arith)
  | no ne ↦ load-store_apart m (f + 4 * i) (f + 4 * n) v (apart n ne) ∙ ground arith
]
  where
    apart : (n : ℕ) → n ≢ i → (f + 4 * i + 4 ≤ f + 4 * n) ⊎ (f + 4 * n + 4 ≤ f + 4 * i)
    apart n ne = ground arith

-- A bit of an array of words.
pub used-store_double :
    (m : Mem) (f n k : ℕ)
    → words m f (n / 32) < 2 ^ 32
    → let w = bit_or (words m f (n / 32)) (1 << (n % 32)) in
      (w < 2 ^ 32)
      × (used (words (store_double m (f + 4 * (n / 32)) w) f) k
          ≡ (if k == n then 1 else used (words m f) k))
unfolding set_frame
used-store_double m f n k h =
    let w = bit_or (words m f (n / 32)) (1 << (n % 32)) in
    let small : w < 2 ^ 32 =
      bit_or-lt 32 (words m f (n / 32)) (1 << (n % 32)) h
        (omega (arith, two_pow-lt (n % 32) 32 (omega arith))) in
    let address : n * 0x1000 / 0x1000 ≡ n = omega arith in
    let stored = words-store_double m f (n / 32) w (k / 32) small in
    let fr = words m f in
    let set : ℕ → FrameWords = λ i. put_word fr (i / 32) (bit_or (fr (i / 32)) (1 << (i % 32))) in
    (
      small,
      ap (bit (k % 32)) stored ∙ ap (λ i. used (set i) k) (sym address) ∙ used-set_frame n k fr,
    )
