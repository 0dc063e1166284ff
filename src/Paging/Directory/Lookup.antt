-- ===== src/Paging/Directory/Lookup.antt =====
-- `get_page` as a lookup.
use mal_os.Prelude.{
  bit_or_beside, ℕ, ◌+◌, ◌/◌, ◌%◌, ◌^◌, ◌<◌, ◌≡◌, refl, ap, true, truth, some, Bool-cases, inl, inr,
  arith, ◌==◌, if◌then◌else◌,
}
use native.Mathlib.Decide.{ℕ_discrete}
use mal_os.Paging.Kheap.{kmalloc_int, kmalloc_ap}
use mal_os.Paging.Kheap.Blocks.{kmalloc_int_lem}
use mal_os.Paging.Directory.{Paging, make_table, get_page}

-- A table that is made has an address that is not null, at the start of a page; the physical entry
-- is that address with the flags present, writeable and user.
pub made_lem :
    (table_idx : ℕ) (st : Paging)
    → 0 < st.placement_address
    → st.placement_address + 8192 < 2 ^ 32
    → let st' = make_table table_idx st in
      (truth (st'.directory.tables table_idx) ≡ true)
      × (st'.directory.tables table_idx % 4096 ≡ 0)
      × (st'.directory.tables_physical table_idx ≡ st'.directory.tables table_idx + 7)
unfolding make_table kmalloc_ap
made_lem table_idx st some_place room =
    let (lo, hi, aligned, _, stored, _) =
      kmalloc_int_lem 4096 1 true st.placement_address (omega arith) in
    let a = (kmalloc_int 4096 1 true st.placement_address).address in
    let on_page = aligned refl in
    (
      ground arith,
      ground arith,
      rw stored (ground (arith, bit_or_beside 12 (a / 2 ^ 12) 0x7 a (omega arith) (omega arith))),
    )

same_entry : (i j : ℕ) (f : ℕ → ℕ) → f i ≡ (if i == j then f j else f i)
same_entry i j f = elim (ℕ_discrete i j) [ yes e ↦ ground (arith, ap f e) | no ne ↦ ground arith ]

-- The page of an address in a directory.
abbrev pub page_of : ℕ → ℕ → ℕ × ℕ
page_of table address = (table, address / 0x1000 % 1024)

-- With room for a table below 4 GiB, `get_page` that may make the table returns a pointer into the
-- table that the directory then has for the address, which is not null, at the index of the address.
-- The other tables of the directory are as before, and so are the pages and the frames. Looking the
-- address up again, whether to make a table or not, gives the same pointer and changes nothing.
pub get_page-get_page :
    (address make : ℕ) (st : Paging)
    → 0 < st.placement_address
    → st.placement_address + 8192 < 2 ^ 32
    → let (page, st₁) = get_page address 1 st in
      let table_idx = address / 0x1000 / 1024 in
      (page ≡ some (page_of (st₁.directory.tables table_idx) address))
      × (truth (st₁.directory.tables table_idx) ≡ true)
      × ((i : ℕ)
          → st₁.directory.tables i
            ≡ (if i == table_idx then st₁.directory.tables table_idx else st.directory.tables i))
      × (st₁.pages ≡ st.pages)
      × (st₁.frames ≡ st.frames)
      × (get_page address make st₁ ≡ (page, st₁))
unfolding get_page
get_page-get_page address make st some_place room =
    let table_idx = address / 0x1000 / 1024 in
    let st' = make_table table_idx st in
    let (present, aligned, physical) = made_lem table_idx st some_place room in
    elim (Bool-cases (truth (st.directory.tables table_idx))) [
      | inl there ↦ rw there (
        refl,
        there,
        λ i. same_entry i table_idx st.directory.tables,
        refl,
        refl,
        rw (get_page, there) refl,
      )
      | inr missing ↦ rw missing (
        refl,
        present,
        λ i. unfold make_table in ground arith,
        unfold make_table in refl,
        unfold make_table in refl,
        rw (get_page, present) refl,
      )
    ]
