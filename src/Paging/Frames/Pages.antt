-- ===== src/Paging/Frames/Pages.antt =====
-- The frames of pages: `alloc_frame` and `free_frame`.
use mal_os.Prelude.{
  ℕ, ◌*◌, ◌/◌, ◌%◌, ◌^◌, ◌≤◌, ◌<◌, ◌≡◌, ◌≢◌, refl, ◌⊎◌, inl, inr, ◌==◌, if◌then◌else◌, arith, ap,
  ◌∙◌, truth, true, false, u32, sym, subst,
}
use native.Mathlib.Decide.{ℕ_discrete}
use mal_os.Paging.Frames.{FrameWords, Page, first_frame, clear_frame, alloc_frame, free_frame}
use mal_os.Paging.Frames.Used.{used, used-set_frame, used-clear_frame}
use mal_os.Paging.Frames.First.{AllUsed, first_frame_lem}

-- Frame `n` is the first free one below `nframes`, or all are in use and `n` is 0.
abbrev pub IsFirst : ℕ → FrameWords → ℕ → Type 0
IsFirst nframes frames n =
    ((n < nframes) × (used frames n ≡ 0) × AllUsed 0 n frames)
    ⊎ ((n ≡ 0) × AllUsed 0 nframes frames)

pub IsFirst-lt :
    (nframes n : ℕ) (frames : FrameWords) → 0 < nframes → IsFirst nframes frames n → n < nframes
IsFirst-lt nframes n frames h (inl (lt, _, _)) = lt
IsFirst-lt nframes n frames h (inr (e, _)) = omega arith

-- With a number of frames that is a positive multiple of 32 and that a page's 20 bits can hold: a
-- page with a frame is left alone, and so is the bitset. Any other page gets the first free frame,
-- or frame 0 if none is free; it becomes present, writeable and accessible to users as the flags
-- say; its other bits stay; and in the bitset that frame, and no other, is put into use.
pub alloc_frame_lem :
    (nframes : ℕ) (page : Page) (is_kernel is_writeable : ℕ) (frames : FrameWords)
    → nframes % 32 ≡ 0
    → 0 < nframes
    → nframes ≤ 2 ^ 20
    → let (page', frames') = alloc_frame nframes page is_kernel is_writeable frames in
      ((page.frame ≢ 0) × (page' ≡ page) × (frames' ≡ frames))
      ⊎ ((page.frame ≡ 0)
          × IsFirst nframes frames page'.frame
          × (page' ≡ record page {
            present = 1;
            rw_bit = if truth is_writeable then 1 else 0;
            user = if truth is_kernel then 0 else 1;
            frame = page'.frame;
          })
          × ((m : ℕ) → used frames' m ≡ (if m == page'.frame then 1 else used frames m)))
unfolding alloc_frame
alloc_frame_lem nframes page is_kernel is_writeable frames whole some_frames small =
    elim (ℕ_discrete page.frame 0) [
      | no ne ↦
          let taken : truth page.frame ≡ true = ground arith in rw taken (inl (ne, refl, refl))
      | yes e ↦
          let free : truth page.frame ≡ false = ground arith in
          let n = first_frame nframes frames in
          let first = first_frame_lem nframes frames whole (omega arith) in
          let below = IsFirst-lt nframes n frames some_frames first in
          let short : n % 2 ^ 20 ≡ n = omega arith in
          let address : u32 (n * 0x1000) ≡ n * 0x1000 = omega arith in
          rw free (
            inr (
              e,
              subst (IsFirst nframes frames) (sym short) first,
              refl,
              λ m. rw (address, short) (used-set_frame n m frames),
            ))
    ]

-- Addresses in one page clear the same bit.
pub clear_frame-page :
    (a : ℕ) (frames : FrameWords) → clear_frame a frames ≡ clear_frame (a / 4096 * 0x1000) frames
unfolding clear_frame
clear_frame-page a frames =
    let page : a / 4096 * 4096 / 4096 ≡ a / 4096 = omega arith in rw page refl

-- `free_frame` leaves a page without a frame alone. From any other it takes the frame `n`, but in the
-- bitset it frees frame `n / 4096`, since `clear_frame` divides the number by the size of a page as
-- if it were an address; no other frame changes.
pub free_frame_lem :
    (page : Page) (frames : FrameWords)
    → let (page', frames') = free_frame page frames in
      ((page.frame ≡ 0) × (page' ≡ page) × (frames' ≡ frames))
      ⊎ ((page.frame ≢ 0)
          × (page' ≡ record page { frame = 0 })
          × ((m : ℕ) → used frames' m ≡ (if m == page.frame / 4096 then 0 else used frames m)))
unfolding free_frame
free_frame_lem page frames = elim (ℕ_discrete page.frame 0) [
  | yes e ↦ let free : truth page.frame ≡ false = ground arith in rw free (inl (e, refl, refl))
  | no ne ↦
      let taken : truth page.frame ≡ true = ground arith in
      rw taken (
        inr (
          ne,
          refl,
          λ m.
              ap (λ z. used z m) (clear_frame-page page.frame frames)
              ∙ used-clear_frame (page.frame / 4096) m frames,
        ))
]

-- A page that was given a frame `n` from 1 to 4095 and is then freed leaves `n` in use: the frame is
-- lost, and frame 0 is free whatever it holds.
pub free_frame_loses :
    (page : Page) (frames : FrameWords)
    → 0 < page.frame
    → page.frame < 4096
    → let frames' = (free_frame page frames).1 in
      (used frames' page.frame ≡ used frames page.frame) × (used frames' 0 ≡ 0)
free_frame_loses page frames h g = elim (free_frame_lem page frames) [
  | inl (e, _, _) ↦ absurd (omega arith)
  | inr (ne, _, all) ↦ (all page.frame ∙ ground arith, all 0 ∙ ground arith)
]
