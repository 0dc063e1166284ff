-- ===== src/Paging/Directory/Mapping.antt =====
-- The loop of `initialise_paging`, in the first table: page after page gets the frame of its own
-- number.
use mal_os.Prelude.{
  ℕ, zero, suc, ◌+◌, ◌*◌, ◌/◌, ◌%◌, ◌≤◌, ◌<◌, ◌≡◌, ◌≢◌, refl, ◌⊎◌, inl, inr, ◌==◌, ◌&&◌, ltb,
  if◌then◌else◌, arith, ap, ◌∙◌, Option, truth, true, false, u32, subst, some,
}
use native.Mathlib.Decide.{ℕ_discrete, dec_lt}
use mal_os.Paging.Frames.{FrameWords, Page, alloc_frame}
use mal_os.Paging.Frames.Used.{used}
use mal_os.Paging.Frames.Pages.{IsFirst, alloc_frame_lem}
use mal_os.Paging.Directory.{Paging, get_page, alloc_at, map_pages}

-- The frames 0 to `n - 1` are in use, those from `n` to 1023 are free.
abbrev pub UsedBelow : ℕ → FrameWords → Type 0
UsedBelow n frames = (m : ℕ) → m < 1024 → used frames m ≡ (if ltb m n then 1 else 0)

-- The first `n` pages of the table at `table` are present and have the frame of their own number; the
-- others have no frame.
abbrev pub OwnFrames : ℕ → ℕ → (ℕ → ℕ → Page) → Type 0
OwnFrames n table pages =
    (j : ℕ)
    → ((pages table j).frame ≡ (if ltb j n then j else 0)) × (j < n → (pages table j).present ≡ 1)

-- After `n` rounds.
pub record IsMapped (root table place n : ℕ) (st : Paging) : Type 0 where
  pub whole : st.nframes ≡ 4096
  pub placed : st.placement_address ≡ place
  pub home : st.kernel_directory ≡ root
  pub there : st.directory.tables 0 ≡ table
  pub physical : st.directory.tables_physical 0 ≡ table + 7
  pub used_below : UsedBelow n st.frames
  pub own : OwnFrames n table st.pages

-- With the first `n` frames in use, the first free one is `n`.
pub first_is :
    (n m : ℕ) (frames : FrameWords) → n < 1024 → UsedBelow n frames → IsFirst 4096 frames m → m ≡ n
first_is n m frames h below (inl (lt, free, all)) = elim (dec_lt m n) [
  | yes p ↦ absurd (ground (arith, below m (omega arith)))
  | no p ↦ elim (dec_lt n m) [
    | yes q ↦ absurd (ground (arith, below n h, all n (omega arith) q))
    | no q ↦ omega arith
  ]
]
first_is n m frames h below (inr (e, all)) =
    absurd (ground (arith, below n h, all n (omega arith) (omega arith)))

-- What `alloc_at` leaves alone.
alloc_at-pages :
    (table n is_kernel is_writeable t j : ℕ) (st : Paging)
    → (alloc_at (table, n) is_kernel is_writeable st).pages t j ≡ (
        if t == table && j == n
        then (alloc_frame st.nframes (st.pages table n) is_kernel is_writeable st.frames).0
        else st.pages t j)
unfolding alloc_at
alloc_at-pages table n is_kernel is_writeable t j st = refl

-- One page more.
alloc_at-IsMapped :
    (root table place n : ℕ) (st : Paging)
    → n < 1024
    → IsMapped root table place n st
    → IsMapped root table place (n + 1) (alloc_at (table, n) 0 0 st)
unfolding alloc_at
alloc_at-IsMapped root table place n st h mapped = go (
    alloc_frame_lem st.nframes (st.pages table n) 0 0 st.frames (omega (arith, mapped.whole))
      (omega (arith, mapped.whole)) (omega (arith, mapped.whole)))
  where
    go :
        let (page', frames') = alloc_frame st.nframes (st.pages table n) 0 0 st.frames in
        (((st.pages table n).frame ≢ 0) × (page' ≡ st.pages table n) × (frames' ≡ st.frames))
          ⊎ (((st.pages table n).frame ≡ 0)
              × IsFirst st.nframes st.frames page'.frame
              × (page' ≡ record (st.pages table n) {
                present = 1;
                rw_bit = if truth 0 then 1 else 0;
                user = if truth 0 then 0 else 1;
                frame = page'.frame;
              })
              × ((m : ℕ) → used frames' m ≡ (if m == page'.frame then 1 else used st.frames m)))
        → IsMapped root table place (n + 1) (alloc_at (table, n) 0 0 st)
    go (inl (ne, _, _)) = absurd (ne ((mapped.own n).0 ∙ ground arith))
    go (inr (e, first, page', all)) =
        let out = alloc_frame st.nframes (st.pages table n) 0 0 st.frames in
        let is : out.0.frame ≡ n =
          first_is n out.0.frame st.frames h mapped.used_below
            (subst (λ k. IsFirst k st.frames out.0.frame) mapped.whole first) in
        let present : out.0.present ≡ 1 = ap (λ p. p.present) page' in
        record {
          whole = mapped.whole;
          placed = mapped.placed;
          home = mapped.home;
          there = mapped.there;
          physical = mapped.physical;
          used_below = λ m lt. all m ∙ ground (arith, mapped.used_below m lt, is);
          own = λ j. elim (ℕ_discrete j n) [
            | yes same ↦ (
              ap (λ p. p.frame) (alloc_at-pages table n 0 0 table j st) ∙ ground arith,
              λ lt. ap (λ p. p.present) (alloc_at-pages table n 0 0 table j st) ∙ ground arith,
            )
            | no other ↦ (
              ap (λ p. p.frame) (alloc_at-pages table n 0 0 table j st)
                  ∙ ground (arith, (mapped.own j).0),
              λ lt.
                  ap (λ p. p.present) (alloc_at-pages table n 0 0 table j st)
                  ∙ ground (arith, (mapped.own j).1 (omega arith)),
            )
          ];
        }

-- The page of a round, in a table that is there.
pub get_page_there :
    (root table place n : ℕ) (st : Paging)
    → truth table ≡ true
    → n < 1024
    → IsMapped root table place n st
    → get_page (n * 4096) 1 st ≡ (some (table, n), st)
unfolding get_page
get_page_there root table place n st some_table h mapped =
    let entry : n * 4096 / 4096 / 1024 ≡ 0 = omega arith in
    let index : n * 4096 / 4096 % 1024 ≡ n = omega arith in
    rw (entry, index, mapped.there, some_table) refl

-- A round of the loop, and its end.
pub map_pages_round :
    (fuel i : ℕ) (st st₁ : Paging) (p : ℕ × ℕ)
    → i < st.placement_address
    → get_page i 1 st ≡ (some p, st₁)
    → map_pages (suc fuel) i st ≡ map_pages fuel (u32 (i + 0x1000)) (alloc_at p 0 0 st₁)
unfolding map_pages
map_pages_round fuel i st st₁ p h e =
    let more : ltb i st.placement_address ≡ true = ground arith in
    rw (map_pages, more, e)
      (ap (λ z. map_pages fuel (u32 (i + 0x1000)) (alloc_at p 0 0 z)) (ap (λ z. z.1) e))

map_pages_end :
    (fuel i : ℕ) (st : Paging) → st.placement_address ≤ i → map_pages (suc fuel) i st ≡ some st
unfolding map_pages
map_pages_end fuel i st h =
    let done : ltb i st.placement_address ≡ false = ground arith in rw (map_pages, done) refl

-- How the loop ends.
abbrev pub Ends : ℕ → ℕ → ℕ → Option Paging → Type 0
Ends root table place out =
    (st' : Paging) × (last : ℕ) × (out ≡ some st')
    × (place ≤ last * 4096)
    × (last ≤ 1024)
    × IsMapped root table place last st'

-- From round `n` on, with the bound in the first table and fuel for the rounds left.
pub map_pages-Ends :
    (fuel root table place n : ℕ) (st : Paging)
    → truth table ≡ true
    → place < 0x400000
    → place ≤ 4096 * (n + fuel)
    → n ≤ 1024
    → IsMapped root table place n st
    → Ends root table place (map_pages (suc fuel) (n * 4096) st)
map_pages-Ends zero root table place n st some_table small enough inside mapped = (
  st,
  n,
  map_pages_end zero (n * 4096) st (omega (arith, mapped.placed)),
  omega arith,
  inside,
  mapped,
)
map_pages-Ends (suc fuel) root table place n st some_table small enough inside mapped =
    elim (dec_lt (n * 4096) place) [
      | no h ↦ (
        st,
        n,
        map_pages_end (suc fuel) (n * 4096) st (omega (arith, mapped.placed)),
        omega arith,
        inside,
        mapped,
      )
      | yes h ↦
          let next : u32 (n * 4096 + 0x1000) ≡ (n + 1) * 4096 = omega arith in
          let round =
            map_pages_round (suc fuel) (n * 4096) st st (table, n) (omega (arith, mapped.placed))
              (get_page_there root table place n st some_table (omega arith) mapped) in
          let (st', last, e, far, most, done) =
            map_pages-Ends fuel root table place (n + 1) (alloc_at (table, n) 0 0 st) some_table
              small (omega arith) (omega arith)
              (alloc_at-IsMapped root table place n st (omega arith) mapped) in
          (
            st',
            last,
            round ∙ ap (λ i. map_pages (suc fuel) i (alloc_at (table, n) 0 0 st)) next ∙ e,
            far,
            most,
            done,
          )
    ]
