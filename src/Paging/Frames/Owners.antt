-- ===== src/Paging/Frames/Owners.antt =====
-- Pages that are given frames and freed in any order: who holds which frame.
use mal_os.Prelude.{ℕ, ◌<◌, ◌≡◌, ◌≢◌, ◌==◌, if◌then◌else◌, List, [], ◌∷◌}
use mal_os.Paging.Frames.{FrameWords, Page, alloc_frame, free_frame}
use mal_os.Paging.Frames.Used.{used}

-- The bitset, and the pages by a number of their own.
pub record Holders : Type 0 where
  pub frames : FrameWords
  pub pages : ℕ → Page

pub data Call : Type 0 where
  alloc : (page is_kernel is_writeable : ℕ) → Call
  free : (page : ℕ) → Call

abbrev pub put_page : (ℕ → Page) → ℕ → Page → ℕ → Page
put_page pages p page q = if q == p then page else pages q

unfoldable pub call : ℕ → Call → Holders → Holders
call nframes (alloc p is_kernel is_writeable) st =
    let (page, frames) = alloc_frame nframes (st.pages p) is_kernel is_writeable st.frames in
    record { frames = frames; pages = put_page st.pages p page }
call nframes (free p) st =
    let (page, frames) = free_frame (st.pages p) st.frames in
    record { frames = frames; pages = put_page st.pages p page }

unfoldable pub calls : ℕ → List Call → Holders → Holders
calls nframes [] st = st
calls nframes (c ∷ cs) st = calls nframes cs (call nframes c st)

abbrev pub frame_of : Holders → ℕ → ℕ
frame_of st p = (st.pages p).frame

-- Frame 0 stands for none.
pub record IsOwned (nframes : ℕ) (st : Holders) : Type 0 where
  pub in_use :
      (p : ℕ) → frame_of st p ≢ 0 → (frame_of st p < nframes) × (used st.frames (frame_of st p) ≡ 1)
  pub alone : (p q : ℕ) → p ≢ q → frame_of st p ≢ 0 → frame_of st p ≢ frame_of st q

-- Every frame in use but 0 stays in use.
abbrev pub Keeps : Holders → Holders → Type 0
Keeps st st' = (m : ℕ) → 0 < m → used st.frames m ≡ 1 → used st'.frames m ≡ 1
