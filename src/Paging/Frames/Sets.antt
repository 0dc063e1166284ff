-- ===== src/Paging/Frames/Sets.antt =====
-- The bitset as the set of the frames in use, and what `alloc_frame` and `free_frame` do to sets. The
-- first frame that is not in a set is looked for frame by frame.
use mal_os.Prelude.{
  ℕ, zero, suc, ◌+◌, ◌/◌, ◌%◌, ◌^◌, ◌≤◌, ◌<◌, ◌≡◌, refl, ◌∙◌, ap, inl, inr, ◌==◌, if◌then◌else◌,
  truth, true, false, List, [], ◌∷◌, arith, fun_ext, sym,
}
use native.Mathlib.Decide.{ℕ_discrete}
use mal_os.Paging.Frames.{FrameWords, Page, clear_frame, alloc_frame, free_frame}
use mal_os.Paging.Frames.Used.{used, used-clear_frame}
use mal_os.Paging.Frames.Pages.{IsFirst, alloc_frame_lem, clear_frame-page}
use mal_os.Paging.Frames.Owners.{Holders, Call, alloc, free, put_page, call, calls}

-- 1 for a frame in the set, and 0 for another.
abbrev pub FrameSet : Type 0
FrameSet = ℕ → ℕ

abbrev pub insert : ℕ → FrameSet → FrameSet
insert n s m = if m == n then 1 else s m

abbrev pub remove : ℕ → FrameSet → FrameSet
remove n s m = if m == n then 0 else s m

-- The first of the `left` frames from `m` on that is not in the set, and 0 if there is none.
abbrev pub search_from : ℕ → ℕ → FrameSet → ℕ
search_from zero m s = 0
search_from (suc left) m s = if s m == 0 then m else search_from left (m + 1) s

-- A page that has no frame gets the first frame that is not in the set, which becomes a member.
abbrev pub take_frame : ℕ → Page → ℕ → ℕ → FrameSet → Page × FrameSet
take_frame nframes page is_kernel is_writeable s =
    let n = search_from nframes 0 s in
    let given : Page = record page {
      present = 1;
      rw_bit = if truth is_writeable then 1 else 0;
      user = if truth is_kernel then 0 else 1;
      frame = n;
    } in
    if page.frame == 0 then (given, insert n s) else (page, s)

-- A page that has a frame loses it. What leaves the set is the frame at that number as an address.
abbrev pub drop_frame : Page → FrameSet → Page × FrameSet
drop_frame page s =
    if page.frame == 0 then (page, s) else (record page { frame = 0 }, remove (page.frame / 4096) s)

abbrev pub call_set : ℕ → Call → FrameSet × (ℕ → Page) → FrameSet × (ℕ → Page)
call_set nframes (alloc p is_kernel is_writeable) (s, pages) =
    let (page, s') = take_frame nframes (pages p) is_kernel is_writeable s in
    (s', put_page pages p page)
call_set nframes (free p) (s, pages) =
    let (page, s') = drop_frame (pages p) s in (s', put_page pages p page)

abbrev pub calls_set : ℕ → List Call → FrameSet × (ℕ → Page) → FrameSet × (ℕ → Page)
calls_set nframes [] st = st
calls_set nframes (c ∷ cs) st = calls_set nframes cs (call_set nframes c st)

-- The state with the words of the bitset forgotten.
abbrev pub view : Holders → FrameSet × (ℕ → Page)
view st = (used st.frames, st.pages)

abbrev pub seen : Page × FrameWords → Page × FrameSet
seen (page, frames) = (page, used frames)

-- The search finds what it is looking for.
search_from-IsFirst :
    (left m n hi : ℕ) (s : FrameSet)
    → hi ≡ m + left
    → m ≤ n
    → n < hi
    → s n ≡ 0
    → ((k : ℕ) → m ≤ k → k < n → s k ≡ 1)
    → search_from left m s ≡ n
search_from-IsFirst zero m n hi s e le lt out all = absurd (omega arith)
search_from-IsFirst (suc left) m n hi s e le lt out all = elim (ℕ_discrete m n) [
  | yes here ↦ let vacant : (s m == 0) ≡ true = ground (arith, out, ap s here) in rw vacant here
  | no beyond ↦
      let taken : (s m == 0) ≡ false = ground (arith, all m (omega arith) (omega arith)) in
      rw taken (
        search_from-IsFirst left (m + 1) n hi s (omega arith) (omega arith) lt out
          (λ k a b. all k (omega arith) b))
]

search_from_none :
    (left m hi : ℕ) (s : FrameSet)
    → hi ≡ m + left
    → ((k : ℕ) → m ≤ k → k < hi → s k ≡ 1)
    → search_from left m s ≡ 0
search_from_none zero m hi s e all = refl
search_from_none (suc left) m hi s e all =
    let taken : (s m == 0) ≡ false = ground (arith, all m (omega arith) (omega arith)) in
    rw taken (search_from_none left (m + 1) hi s (omega arith) (λ k a b. all k (omega arith) b))

IsFirst-search_from :
    (nframes n : ℕ) (frames : FrameWords)
    → IsFirst nframes frames n
    → search_from nframes 0 (used frames) ≡ n
IsFirst-search_from nframes n frames (inl (lt, vacant, all)) =
    search_from-IsFirst nframes 0 n nframes (used frames) (omega arith) (omega arith) lt vacant all
IsFirst-search_from nframes n frames (inr (e, all)) =
    search_from_none nframes 0 nframes (used frames) (omega arith) all ∙ sym e

module _ (nframes : ℕ) (whole : nframes % 32 ≡ 0) (some_frames : 0 < nframes)
    (small : nframes ≤ 2 ^ 20) where
  alloc_frame-take_frame :
      (page : Page) (is_kernel is_writeable : ℕ) (frames : FrameWords)
      → seen (alloc_frame nframes page is_kernel is_writeable frames)
        ≡ take_frame nframes page is_kernel is_writeable (used frames)
  alloc_frame-take_frame page is_kernel is_writeable frames =
      elim (alloc_frame_lem nframes page is_kernel is_writeable frames whole some_frames small) [
        | inl (ne, page', frames') ↦
            let held : (page.frame == 0) ≡ false = ground arith in
            rw held (λ i. (page' i, used (frames' i)))
        | inr (e, first, page', all) ↦
            let bare : (page.frame == 0) ≡ true = ground arith in
            let n = (alloc_frame nframes page is_kernel is_writeable frames).0.frame in
            rw (bare, IsFirst-search_from nframes n frames first) (λ i. (page' i, fun_ext all i))
      ]

  free_frame-drop_frame :
      (page : Page) (frames : FrameWords)
      → seen (free_frame page frames) ≡ drop_frame page (used frames)
  unfolding free_frame
  free_frame-drop_frame page frames =
      let freed : (m : ℕ)
          → used (clear_frame page.frame frames) m ≡ remove (page.frame / 4096) (used frames) m =
        λ m.
          ap (λ f. used f m) (clear_frame-page page.frame frames)
          ∙ used-clear_frame (page.frame / 4096) m frames in
      elim (ℕ_discrete page.frame 0) [
        | yes e ↦ let bare : (page.frame == 0) ≡ true = ground arith in rw bare refl
        | no ne ↦
            let held : (page.frame == 0) ≡ false = ground arith in
            rw held (λ i. (record page { frame = 0 }, fun_ext freed i))
      ]

  call-call_set :
      (c : Call) (st : Holders) → view (call nframes c st) ≡ call_set nframes c (view st)
  unfolding call
  call-call_set (alloc p is_kernel is_writeable) st =
      ap (λ (out : Page × FrameSet). (out.1, put_page st.pages p out.0))
        (alloc_frame-take_frame (st.pages p) is_kernel is_writeable st.frames)
  call-call_set (free p) st =
      ap (λ (out : Page × FrameSet). (out.1, put_page st.pages p out.0))
        (free_frame-drop_frame (st.pages p) st.frames)

  -- With a number of frames that is a positive multiple of 32 and that a page's 20 bits can hold, the
  -- words of the bitset stand for the set of the frames in use: however `alloc_frame` and `free_frame`
  -- are called, the pages and the set become what they become by these rules. A page without a frame is
  -- given the first frame below `nframes` that is not in the set, as a search frame by frame finds it,
  -- or 0, and that frame becomes a member. A page that is freed loses its frame; but the member that
  -- leaves is the frame whose page has that number among its addresses, which is 0 for the numbers
  -- below 4096.
  pub calls-calls_set :
      (cs : List Call) (st : Holders) → view (calls nframes cs st) ≡ calls_set nframes cs (view st)
  unfolding calls
  calls-calls_set [] st = refl
  calls-calls_set (c ∷ cs) st =
      calls-calls_set cs (call nframes c st) ∙ ap (calls_set nframes cs) (call-call_set c st)
