-- ===== src/Paging/Directory/Start.antt =====
-- `initialise_paging`, and what the processor's page walk finds afterwards.
use mal_os.Prelude.{
  ℕ, suc, ◌+◌, ◌*◌, ◌/◌, ◌%◌, ◌^◌, ◌≤◌, ◌<◌, ◌≡◌, refl, ◌==◌, ◌&&◌, if◌then◌else◌, arith, ap, ◌∙◌,
  Option, none, some, truth, true, false, sym, subst, bit, bit-le, bit-zero, bit-bit_or,
}
use mal_os.Kernel.State.{Kernel, page_fault}
use mal_os.Interrupts.Isr.{register_interrupt_handler}
use mal_os.Paging.Kheap.{kmalloc, kmalloc_a, kmalloc_ap, kmalloc_int}
use mal_os.Paging.Kheap.Blocks.{kmalloc_int_lem}
use mal_os.Paging.Frames.{FrameWords}
use mal_os.Paging.Directory.{
  Paging, tables_physical_offset, clear_words, make_table, get_page, map_pages, prepare_paging,
  initialise_paging, switch_page_directory,
}
use mal_os.Paging.Directory.Lookup.{made_lem}
use mal_os.Paging.Directory.Mapping.{
  IsMapped, Ends, UsedBelow, get_page_there, map_pages_round, map_pages-Ends,
}

-- What the processor's page walk finds for an address, from the directory that `cr3` names: none where
-- an entry is not present.
abbrev pub translate : Paging → ℕ → Option ℕ
translate st a =
    let entry = st.directory.tables_physical (a / 2 ^ 22) in
    let page = st.pages (entry / 0x1000 * 0x1000) (a / 0x1000 % 1024) in
    if st.cr3 == st.kernel_directory + tables_physical_offset
      && (bit 0 entry == 1 && page.present == 1)
    then some (page.frame * 0x1000 + a % 0x1000)
    else none

-- Memory for the directory and the tables in which nothing stands yet.
pub record IsFresh (st : Paging) : Type 0 where
  pub some_place : 0 < st.placement_address
  pub room : st.placement_address + 0x8000 ≤ 0x400000
  pub no_table : st.directory.tables 0 ≡ 0
  pub no_frames : (t j : ℕ) → (st.pages t j).frame ≡ 0

clear_words-UsedBelow : (frames : FrameWords) → UsedBelow 0 (clear_words 128 frames)
clear_words-UsedBelow frames m h =
    ap (bit (m % 32)) {x = clear_words 128 frames (m / 32)} {y = 0} (ground arith)
    ∙ bit-zero (m % 32)
    ∙ ground arith

-- Where the loop starts.
prepare_paging_lem :
    (st : Paging)
    → IsFresh st
    → let st₀ = prepare_paging st in
      (st.placement_address < st₀.placement_address)
      × (st₀.placement_address ≤ st.placement_address + 0x4000)
      × (st₀.kernel_directory ≤ st₀.placement_address)
unfolding prepare_paging kmalloc kmalloc_a
prepare_paging_lem st fresh =
    let bitset = kmalloc_int_lem 128 0 false st.placement_address (omega (arith, fresh.room)) in
    let place = (kmalloc_int 128 0 false st.placement_address).placement_address in
    let dir = kmalloc_int_lem 8196 1 false place (omega (arith, fresh.room, bitset)) in
    (omega (arith, fresh.some_place, bitset, dir), omega (arith, bitset, dir), omega (arith, dir))

-- The first round makes the first table.
first_round :
    (st : Paging)
    → IsFresh st
    → let st₀ = prepare_paging st in
      let st₁ = make_table 0 st₀ in
      let table = st₁.directory.tables 0 in
      (truth table ≡ true)
      × (table % 4096 ≡ 0)
      × (st.placement_address < st₁.placement_address)
      × (st₁.placement_address < 0x400000)
      × IsMapped st₀.kernel_directory table st₁.placement_address 0 st₁
unfolding prepare_paging make_table kmalloc_ap
first_round st fresh =
    let st₀ = prepare_paging st in
    let start = prepare_paging_lem st fresh in
    let (some_table, aligned, physical) =
      made_lem 0 st₀ (omega (arith, start)) (omega (arith, start, fresh.room)) in
    let block =
      kmalloc_int_lem 4096 1 true st₀.placement_address (omega (arith, start, fresh.room)) in
    (
      some_table,
      aligned,
      omega (arith, block, start),
      omega (arith, block, start, fresh.room),
      record {
        whole = refl;
        placed = refl;
        home = refl;
        there = refl;
        physical = physical;
        used_below = clear_words-UsedBelow st.frames;
        own = λ j. (fresh.no_frames _ j ∙ ground arith, λ h. absurd (omega arith));
      },
    )

makes_table :
    (st : Paging)
    → st.directory.tables 0 ≡ 0
    → let st₁ = make_table 0 st in get_page 0 1 st ≡ (some (st₁.directory.tables 0, 0), st₁)
unfolding get_page
makes_table st missing =
    let missing' : truth (st.directory.tables 0) ≡ false = ap truth missing in rw missing' refl

-- The whole loop.
loop-Ends :
    (fuel : ℕ) (st : Paging)
    → IsFresh st
    → 1024 ≤ fuel
    → let st₀ = prepare_paging st in
      let st₁ = make_table 0 st₀ in
      Ends st₀.kernel_directory
        (st₁.directory.tables 0)
        st₁.placement_address
        (map_pages (suc fuel) 0 st₀)
loop-Ends fuel st fresh enough =
    let st₀ = prepare_paging st in
    let st₁ = make_table 0 st₀ in
    let table = st₁.directory.tables 0 in
    let start = prepare_paging_lem st fresh in
    let (some_table, aligned, more, small, mapped) = first_round st fresh in
    let round₀ =
      map_pages_round fuel 0 st₀ st₁ (table, 0) (omega (arith, start))
        (makes_table st₀ (unfold prepare_paging in fresh.no_table)) in
    let round₁ =
      map_pages_round fuel 0 st₁ st₁ (table, 0) (omega (arith, more))
        (get_page_there st₀.kernel_directory table st₁.placement_address 0 st₁ some_table
          (omega arith) mapped) in
    subst (Ends st₀.kernel_directory table st₁.placement_address) (sym (round₀ ∙ sym round₁)) (
      map_pages-Ends fuel st₀.kernel_directory table st₁.placement_address 0 st₁ some_table small
        (omega arith) (omega arith) mapped)

-- The page walk through the table that the loop has filled.
translate_own :
    (root table place last a : ℕ) (st : Paging)
    → IsMapped root table place last st
    → st.cr3 ≡ st.kernel_directory + tables_physical_offset
    → table % 4096 ≡ 0
    → place ≤ last * 4096
    → place < 0x400000
    → a < place
    → translate st a ≡ some a
translate_own root table place last a st mapped walked aligned far small h =
    let first : a / 2 ^ 22 ≡ 0 = omega arith in
    let here : (table + 7) / 0x1000 * 0x1000 ≡ table = omega arith in
    let frame = (mapped.own (a / 0x1000 % 1024)).0 in
    let present = (mapped.own (a / 0x1000 % 1024)).1 (omega arith) in
    rw (first, mapped.physical, here) (ground (arith, frame, present, walked))

initialise_paging_ends :
    {Dev : Type 0}
    → (fuel : ℕ) (k : Kernel Dev) (st out : Paging)
    → map_pages fuel 0 (prepare_paging st) ≡ some out
    → initialise_paging fuel (k, st)
      ≡ some (
        register_interrupt_handler 14 page_fault k,
        switch_page_directory out.kernel_directory out,
      )
unfolding initialise_paging
initialise_paging_ends fuel k st out e = rw (e, initialise_paging) refl

-- Started at a placement address above 0 and 32 KiB or more below 4 MiB, in memory where the directory
-- has no first table and no page a frame, and with fuel for 1024 rounds, `initialise_paging` ends.
-- Then the placement address is still below 4 MiB; the page walk from `cr3` finds every address below
-- it at itself; the bit of `cr0` that turns paging on is set; `kernel_directory` is the current one;
-- and the kernel is as before but for the handler of interrupt 14, which is `page_fault`.
pub initialise_paging_lem :
    {Dev : Type 0}
    → (fuel : ℕ) (k : Kernel Dev) (st : Paging) → IsFresh st
    → 1024 ≤ fuel
    → (st' : Paging) × (initialise_paging (suc fuel) (k, st)
        ≡ some (
          record k {
            interrupt_handlers = λ i. if i == 14 then some page_fault else k.interrupt_handlers i;
          },
          st',
        ))
      × (st.placement_address ≤ st'.placement_address)
      × (st'.placement_address < 0x400000)
      × ((a : ℕ) → a < st'.placement_address → translate st' a ≡ some a)
      × (bit 31 st'.cr0 ≡ 1)
      × (st'.current_directory ≡ st'.kernel_directory)
unfolding register_interrupt_handler switch_page_directory
initialise_paging_lem fuel k st fresh enough =
    let st₀ = prepare_paging st in
    let st₁ = make_table 0 st₀ in
    let table = st₁.directory.tables 0 in
    let start = prepare_paging_lem st fresh in
    let (some_table, aligned, more, small, _) = first_round st fresh in
    let (out, last, ends, far, most, mapped) = loop-Ends fuel st fresh enough in
    let root : out.kernel_directory < 0x400000 = omega (arith, mapped.home, start, fresh.room) in
    let st' = switch_page_directory out.kernel_directory out in
    let mapped' : IsMapped st₀.kernel_directory table st₁.placement_address last st' = record {
      whole = mapped.whole;
      placed = mapped.placed;
      home = mapped.home;
      there = mapped.there;
      physical = mapped.physical;
      used_below = mapped.used_below;
      own = mapped.own;
    } in
    (
      st',
      initialise_paging_ends (suc fuel) k st out ends,
      omega (arith, mapped.placed),
      omega (arith, mapped.placed),
      λ a h.
          translate_own st₀.kernel_directory table st₁.placement_address last a st' mapped'
            (omega (arith, root)) aligned far small (omega (arith, mapped.placed)),
      omega (arith, bit-bit_or 31 out.cr0 0x80000000, bit-le 31 out.cr0),
      refl,
    )
