-- ===== src/Paging/Frames/Tests.antt =====
-- A bitset of two words in which frame 5 is the first free one.
use mal_os.Prelude.{
  ℕ, zero, suc, ◌<◌, ◌≡◌, ◌≢◌, refl, ◌⊎◌, ◌==◌, if◌then◌else◌, arith, truth, List, [], ◌∷◌,
}
use mal_os.Paging.Frames.{
  FrameWords, Page, scan_word, scan_frames, first_frame, set_frame, clear_frame, alloc_frame,
  free_frame,
}
use mal_os.Paging.Frames.Used.{used}
use mal_os.Paging.Frames.First.{AllUsed, first_frame_lem}
use mal_os.Paging.Frames.Pages.{IsFirst, alloc_frame_lem}
use mal_os.Paging.Frames.Sets.{view, calls_set, calls-calls_set}
use mal_os.Paging.Frames.Owners.{Holders, Call, alloc, free, calls, call, frame_of}

abbrev words : FrameWords
words zero = 0xFFFFFFDF
words (suc n) = 0

abbrev no_frame : Page
no_frame = record {
  present = 0;
  rw_bit = 0;
  user = 0;
  accessed = 0;
  dirty = 0;
  unused = 0;
  frame = 0;
}

abbrev with_frame : Page
with_frame = record {
  present = 1;
  rw_bit = 0;
  user = 1;
  accessed = 0;
  dirty = 0;
  unused = 0;
  frame = 7;
}

first_is_5 : first_frame 64 words ≡ 5
unfolding first_frame scan_frames scan_word
first_is_5 = refl

next_is_32 : first_frame 64 (set_frame 0x5000 words) ≡ 32
unfolding first_frame set_frame scan_frames scan_word
next_is_32 = refl

full_gives_0 : first_frame 32 (set_frame 0x5000 words) ≡ 0
unfolding first_frame set_frame scan_frames scan_word
full_gives_0 = refl

first_frame_lem_example :
    let n = first_frame 64 words in
    ((n < 64) × (used words n ≡ 0) × AllUsed 0 n words) ⊎ ((n ≡ 0) × AllUsed 0 64 words)
first_frame_lem_example = first_frame_lem 64 words refl (omega arith)

alloc_frame_lem_example :
    let (page', frames') = alloc_frame 64 no_frame 0 1 words in
    ((no_frame.frame ≢ 0) × (page' ≡ no_frame) × (frames' ≡ words))
    ⊎ ((no_frame.frame ≡ 0)
        × IsFirst 64 words page'.frame
        × (page' ≡ record no_frame {
          present = 1;
          rw_bit = if truth 1 then 1 else 0;
          user = if truth 0 then 0 else 1;
          frame = page'.frame;
        })
        × ((m : ℕ) → used frames' m ≡ (if m == page'.frame then 1 else used words m)))
alloc_frame_lem_example = alloc_frame_lem 64 no_frame 0 1 words refl (omega arith) (omega arith)

-- Three pages are given frames, and the first is freed before the third is given one.
abbrev some_calls : List Call
some_calls = alloc 1 0 1 ∷ alloc 2 0 1 ∷ free 1 ∷ alloc 3 0 1 ∷ []

abbrev no_frames : Holders
no_frames = record { frames = words; pages = λ p. no_frame }

-- The third gets frame 0, which `free_frame` has freed in place of frame 5.
shared_0 :
    let st = calls 64 some_calls no_frames in
    (frame_of st 1 ≡ 0) × (frame_of st 2 ≡ 32) × (frame_of st 3 ≡ 0) × (used st.frames 5 ≡ 1)
unfolding calls call alloc_frame free_frame first_frame set_frame clear_frame scan_frames scan_word
shared_0 = (refl, refl, refl, refl)

calls-calls_set_example :
    view (calls 64 some_calls no_frames) ≡ calls_set 64 some_calls (view no_frames)
calls-calls_set_example = calls-calls_set 64 refl (omega arith) (omega arith) some_calls no_frames
