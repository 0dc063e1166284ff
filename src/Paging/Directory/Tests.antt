-- ===== src/Paging/Directory/Tests.antt =====
-- An empty directory, looked up and mapped.
use mal_os.Prelude.{ℕ, ◌/◌, ◌≡◌, ◌==◌, if◌then◌else◌, arith, truth, true, some}
use mal_os.Paging.Frames.{Page}
use mal_os.Paging.Directory.{Paging, get_page}
use mal_os.Paging.Directory.Lookup.{page_of, get_page-get_page}

abbrev empty_page : Page
empty_page = record {
  present = 0;
  rw_bit = 0;
  user = 0;
  accessed = 0;
  dirty = 0;
  unused = 0;
  frame = 0;
}

abbrev empty : Paging
empty = record {
  placement_address = 0x5123;
  nframes = 4096;
  frames = λ n. 0;
  kernel_directory = 0;
  current_directory = 0;
  cr0 = 0x11;
  cr3 = 0;
  directory = record { tables = λ n. 0; tables_physical = λ n. 0; physical_addr = 0 };
  pages = λ t i. empty_page;
}

get_page-get_page_example :
    let (page, st₁) = get_page 0x403000 1 empty in
    let table_idx = 0x403000 / 0x1000 / 1024 in
    (page ≡ some (page_of (st₁.directory.tables table_idx) 0x403000))
    × (truth (st₁.directory.tables table_idx) ≡ true)
    × ((i : ℕ)
        → st₁.directory.tables i
          ≡ (if i == table_idx then st₁.directory.tables table_idx else empty.directory.tables i))
    × (st₁.pages ≡ empty.pages)
    × (st₁.frames ≡ empty.frames)
    × (get_page 0x403000 0 st₁ ≡ (page, st₁))
get_page-get_page_example = get_page-get_page 0x403000 0 empty (omega arith) (omega arith)
