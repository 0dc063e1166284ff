-- ===== src/Paging/Bytes/Rounds.antt =====
-- The loop of `initialise_paging` on the bytes: what holds after each round.
use mal_os.Prelude.{
  ℕ, ◌+◌, ◌*◌, ◌/◌, ◌%◌, ◌^◌, ◌<◌, ◌≤◌, ◌≡◌, ◌≢◌, refl, ◌∙◌, ap, ltb, if◌then◌else◌, truth, false,
  u32, bit, bit_or, ◌⊎◌, inr, arith, sym, subst, ◌<<◌,
}
use native.Mathlib.Decide.{ℕ_discrete}
use mal_os.Libc.Memory.{Mem}
use mal_os.Kernel.Processor.{load_double, store_double}
use mal_os.Kernel.Processor.Stack.{load-store_double, load-store_apart, store_double_outside}
use mal_os.Paging.Frames.{first_frame}
use mal_os.Paging.Frames.Used.{used}
use mal_os.Paging.Frames.Pages.{IsFirst}
use mal_os.Paging.Frames.First.{first_frame_lem}
use mal_os.Paging.Directory.{tables_physical_offset}
use mal_os.Paging.Directory.Mapping.{UsedBelow, first_is}
use mal_os.Paging.Bytes.{
  PagingMemory, page_of_word, word_of_page, bitset, page_at, set_frame_at, alloc_frame_at,
}
use mal_os.Paging.Bytes.Words.{words, words-store_double, page_of_word_lem, used-store_double}

-- Where the blocks are, from `start` on: 128 bytes for the bitset, the directory, and the first table,
-- up to `place`.
pub record IsPlaced (start f root table place : ℕ) : Type 0 where
  pub behind : start ≤ f
  pub directory : f + 128 ≤ root
  pub aligned_root : root % 4096 ≡ 0
  pub first_table : root + 8196 ≤ table
  pub aligned : table % 4096 ≡ 0
  pub end : place ≡ table + 4096
  pub low : place < 0x400000
  pub in_room : place ≤ start + 0x8000

-- After `n` rounds, from the memory `old` on.
pub record IsMapped (old : Mem) (start table n : ℕ) (st : PagingMemory) : Type 0 where
  pub whole : st.nframes ≡ 4096
  pub placed : IsPlaced start st.frames st.kernel_directory table st.placement_address
  pub there : load_double st.mem st.kernel_directory ≡ table
  pub physical : load_double st.mem (st.kernel_directory + tables_physical_offset) ≡ table + 7
  pub others :
      (i : ℕ)
      → i ≢ 0
      → i < 1024
      → load_double st.mem (st.kernel_directory + tables_physical_offset + 4 * i) ≡ 0
  pub sized : (i : ℕ) → i < 32 → bitset st i < 2 ^ 32
  pub used_below : UsedBelow n (bitset st)
  pub own :
      (j : ℕ)
      → j < 1024
      → let page = page_of_word (load_double st.mem (table + 4 * j)) in
        (page.frame ≡ (if ltb j n then j else 0))
        × (j < n → page.present ≡ 1)
        × (n ≤ j → page.present ≡ 0)
  pub outside : (p : ℕ) → (p < st.frames) ⊎ (st.placement_address ≤ p) → st.mem p ≡ old p

-- The memory after the bit and the page of frame `n` are written.
abbrev with_bit : ℕ → PagingMemory → Mem
with_bit n st =
    store_double st.mem (st.frames + 4 * (n / 32)) (bit_or (bitset st (n / 32)) (1 << (n % 32)))

abbrev new_word : ℕ → ℕ → PagingMemory → ℕ
new_word n p st = word_of_page (record (page_of_word (load_double (with_bit n st) p)) {
  present = 1;
  rw_bit = 0;
  user = 1;
  frame = n;
})

alloc_frame_at-mem :
    (n p : ℕ) (st : PagingMemory)
    → n < 1024
    → first_frame st.nframes (bitset st) ≡ n
    → (page_at st p).frame ≡ 0
    → alloc_frame_at p 0 0 st ≡ record st { mem = store_double (with_bit n st) p (new_word n p st) }
unfolding alloc_frame_at set_frame_at
alloc_frame_at-mem n p st h first free =
    let none_yet : truth (page_at st p).frame ≡ false = ground (arith, free) in
    let address : u32 (n * 0x1000) / 0x1000 ≡ n = omega arith in
    let short : n % 2 ^ 20 ≡ n = omega arith in
    rw (alloc_frame_at, none_yet, first, address, short) refl

-- What the two stores leave alone.
with_bit-load :
    (n b : ℕ) (st : PagingMemory)
    → n < 1024
    → (b + 4 ≤ st.frames) ⊎ (st.frames + 128 ≤ b)
    → load_double (with_bit n st) b ≡ load_double st.mem b
with_bit-load n b st h apart = load-store_apart st.mem (st.frames + 4 * (n / 32)) b _ (ground arith)

store-with_bit-load :
    (n p v b : ℕ) (st : PagingMemory)
    → n < 1024
    → (b + 4 ≤ st.frames) ⊎ (st.frames + 128 ≤ b)
    → (p + 4 ≤ b) ⊎ (b + 4 ≤ p)
    → load_double (store_double (with_bit n st) p v) b ≡ load_double st.mem b
store-with_bit-load n p v b st h apart apart' =
    load-store_apart (with_bit n st) p b v apart' ∙ with_bit-load n b st h apart

bitset-with_bit :
    (n p v i : ℕ) (st : PagingMemory)
    → i < 32
    → st.frames + 128 ≤ p
    → words (store_double (with_bit n st) p v) st.frames i ≡ words (with_bit n st) st.frames i
bitset-with_bit n p v i st h above =
    load-store_apart (with_bit n st) p (st.frames + 4 * i) v (inr (omega arith))

-- A round.
pub alloc_frame_at-IsMapped :
    (old : Mem) (start table n : ℕ) (st : PagingMemory)
    → n < 1024
    → IsMapped old start table n st
    → IsMapped old start table (n + 1) (alloc_frame_at (table + 4 * n) 0 0 st)
alloc_frame_at-IsMapped old start table n st h now =
    let p = table + 4 * n in
    let at = now.placed in
    let free : (page_at st p).frame ≡ 0 = (now.own n h).0 ∙ ground arith in
    let first = first_is n (first_frame st.nframes (bitset st)) (bitset st) h now.used_below (
      subst (λ k. IsFirst k (bitset st) (first_frame st.nframes (bitset st))) now.whole
        (first_frame_lem st.nframes (bitset st) (omega (arith, now.whole))
          (omega (arith, now.whole)))) in
    let v = new_word n p st in
    let (small, present, frame) =
      page_of_word_lem 0 1 n (load_double (with_bit n st) p) (omega arith) (omega arith)
        (omega arith) in
    let m₂ = store_double (with_bit n st) p v in
    let stored = load-store_double (with_bit n st) p v small in
    let above : st.frames + 128 ≤ p = omega (arith, at.directory, at.first_table) in
    let bit_set =
      λ (k : ℕ). used-store_double st.mem st.frames n k (now.sized (n / 32) (omega arith)) in
    let same_bit : (k : ℕ)
        → k < 1024
        → used (words m₂ st.frames) k ≡ used (words (with_bit n st) st.frames) k =
      λ k lt. ap (bit (k % 32)) (bitset-with_bit n p v (k / 32) st (omega arith) above) in
    subst (IsMapped old start table (n + 1)) (sym (alloc_frame_at-mem n p st h first free))
      (record {
        whole = now.whole;
        placed = at;
        there =
            store-with_bit-load n p v st.kernel_directory st h (inr at.directory)
              (inr (omega (arith, at.first_table)))
            ∙ now.there;
        physical =
            store-with_bit-load n p v (st.kernel_directory + tables_physical_offset) st h
              (inr (omega (arith, at.directory))) (inr (omega (arith, at.first_table)))
            ∙ now.physical;
        others = λ i ne lt.
            store-with_bit-load n p v (st.kernel_directory + tables_physical_offset + 4 * i) st h
              (inr (omega (arith, at.directory))) (inr (omega (arith, at.first_table)))
            ∙ now.others i ne lt;
        sized = λ i lt. ground (
          arith,
          bitset-with_bit n p v i st lt above,
          words-store_double st.mem st.frames (n / 32) _ i (bit_set 0).0,
          (bit_set 0).0,
          now.sized i lt,
        );
        used_below = λ k lt. same_bit k lt ∙ (bit_set k).1 ∙ ground (arith, now.used_below k lt);
        own = λ j lt. elim (ℕ_discrete j n) [
          | yes same ↦
              let e = ap (λ j. load_double m₂ (table + 4 * j)) same ∙ stored in
              (
                ap (λ w. (page_of_word w).frame) e ∙ frame ∙ ground arith,
                λ _. ap (λ w. (page_of_word w).present) e ∙ present,
                λ le. absurd (omega arith),
              )
          | no other ↦
              let e =
                store-with_bit-load n p v (table + 4 * j) st h
                  (inr (omega (arith, at.directory, at.first_table))) (ground arith) in
              let (page_frame, is_present, not_present) = now.own j lt in
              (
                ap (λ w. (page_of_word w).frame) e ∙ page_frame ∙ ground arith,
                λ below. ap (λ w. (page_of_word w).present) e ∙ is_present (omega arith),
                λ le. ap (λ w. (page_of_word w).present) e ∙ not_present (omega arith),
              )
        ];
        outside = λ q out.
            store_double_outside (with_bit n st) p v q
              (ground (arith, at.directory, at.first_table, at.end))
            ∙ store_double_outside st.mem (st.frames + 4 * (n / 32)) _ q
                (ground (arith, at.directory, at.first_table, at.end))
            ∙ now.outside q out;
      })
