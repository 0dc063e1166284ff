-- ===== src/Paging/Directory.antt =====
-- The page directory of BIOS/kernel/paging/paging.c. A pointer to a page is the address of its table
-- with its index there; a null pointer is `none`, and the address 0 in the directory.
pub mod Lookup
pub mod Mapping
pub mod Start
mod Tests
use mal_os.Prelude.{
  ℕ, zero, suc, ◌+◌, ◌*◌, ◌/◌, ◌%◌, ◌==◌, ◌&&◌, ltb, if◌then◌else◌, bit_or, u32, truth, Option,
  none, some,
}
use mal_os.Kernel.State.{Kernel, page_fault}
use mal_os.Interrupts.Isr.{register_interrupt_handler}
use mal_os.Paging.Kheap.{Placed, kmalloc, kmalloc_a, kmalloc_ap}
use mal_os.Paging.Frames.{FrameWords, Page, alloc_frame, index_from_bit}

pub record PageDirectory : Type 0 where
  pub tables : ℕ → ℕ
  pub tables_physical : ℕ → ℕ
  pub physical_addr : ℕ

-- The globals, with the directory at `kernel_directory`, the pages that stand in memory as tables, and
-- the processor's registers that turn paging on.
pub record Paging : Type 0 where
  pub placement_address : ℕ
  pub nframes : ℕ
  pub frames : FrameWords
  pub kernel_directory : ℕ
  pub current_directory : ℕ
  pub directory : PageDirectory
  pub pages : ℕ → ℕ → Page
  pub cr0 : ℕ
  pub cr3 : ℕ

abbrev pub page_table_size : ℕ
page_table_size = 1024 * 4

abbrev pub put : (ℕ → ℕ) → ℕ → ℕ → ℕ → ℕ
put f i v n = if n == i then v else f n

-- A new table, put into the directory.
unfoldable pub make_table : ℕ → Paging → Paging
make_table table_idx st =
    let placed = kmalloc_ap page_table_size st.placement_address in
    let tmp = elim placed.phys as (λ x. ℕ) [ none ↦ 0 | some tmp ↦ tmp ] in
    record st {
      placement_address = placed.placement_address;
      directory = record st.directory {
        tables = put st.directory.tables table_idx placed.address;
        tables_physical = put st.directory.tables_physical table_idx (bit_or tmp 0x7);
      };
    }

unfoldable pub get_page : ℕ → ℕ → Paging → Option (ℕ × ℕ) × Paging
get_page address make st =
    let page = address / 0x1000 in
    let table_idx = page / 1024 in
    let made = make_table table_idx st in
    if truth (st.directory.tables table_idx)
    then (some (st.directory.tables table_idx, page % 1024), st)
    else if truth make
    then (some (made.directory.tables table_idx, page % 1024), made)
    else (none, st)

-- `alloc_frame` on the page that a pointer points to.
unfoldable pub alloc_at : ℕ × ℕ → ℕ → ℕ → Paging → Paging
alloc_at (table, index) is_kernel is_writeable st =
    let (page, frames) =
      alloc_frame st.nframes (st.pages table index) is_kernel is_writeable st.frames in
    record st {
      frames = frames;
      pages = λ t i. if t == table && i == index then page else st.pages t i;
    }

-- The loop of `initialise_paging`; `none` is fuel that has run out, or a null pointer.
unfoldable pub map_pages : ℕ → ℕ → Paging → Option Paging
map_pages zero i st = none
map_pages (suc fuel) i st =
    let (page, st₁) = get_page i 1 st in
    if ltb i st.placement_address
    then elim page [ none ↦ none | some p ↦ map_pages fuel (u32 (i + 0x1000)) (alloc_at p 0 0 st₁) ]
    else some st

-- `memset` of a number of bytes, a multiple of 4, at the start of an array of words.
abbrev pub clear_words : ℕ → FrameWords → FrameWords
clear_words size frames n = if ltb n (size / 4) then 0 else frames n

-- `sizeof(page_directory_t)`, and where `tablesPhysical` stands in it.
abbrev pub page_directory_size : ℕ
page_directory_size = 1024 * 4 + 1024 * 4 + 4

abbrev pub tables_physical_offset : ℕ
tables_physical_offset = 1024 * 4

-- With paging on the processor goes through the tables, which Paging/Bytes models.
unfoldable pub switch_page_directory : ℕ → Paging → Paging
switch_page_directory dir st = record st {
  current_directory = dir;
  cr3 = u32 (dir + tables_physical_offset);
  cr0 = bit_or st.cr0 0x80000000;
}

-- The part of `initialise_paging` before its loop. What stands in the memory of the directory and of
-- the tables is what it was.
unfoldable pub prepare_paging : Paging → Paging
prepare_paging st =
    let mem_end_page : ℕ = 0x1000000 in
    let nframes = mem_end_page / 0x1000 in
    let bitset = kmalloc (index_from_bit nframes) st.placement_address in
    let dir = kmalloc_a page_directory_size bitset.placement_address in
    record st {
      nframes = nframes;
      frames = clear_words (index_from_bit nframes) st.frames;
      placement_address = dir.placement_address;
      kernel_directory = dir.address;
      current_directory = dir.address;
    }

-- `fuel` bounds the rounds of the loop.
unfoldable pub initialise_paging :
    {Dev : Type 0} → ℕ → Kernel Dev × Paging → Option (Kernel Dev × Paging)
initialise_paging fuel (k, st) = elim (map_pages fuel 0 (prepare_paging st)) [
  | none ↦ none
  | some st₁ ↦
      some
        (register_interrupt_handler 14 page_fault k, switch_page_directory st₁.kernel_directory st₁)
]
