-- ===== src/Paging/Bytes.antt =====
-- `initialise_paging` of BIOS/kernel/paging/paging.c, and what it calls, on the bytes of the memory: the
-- bitset, the directory and the tables stand where the allocator has put them, also where it gave them
-- too little room. A pointer is an address, and a null pointer is `none`. `page_t` of paging.h is a word
-- whose fields the compiler lays out from the lowest bit on.
pub mod Words
pub mod Rounds
pub mod Start
pub mod Loop
pub mod Maps
mod Tests
use mal_os.Prelude.{
  ℕ, zero, suc, ◌+◌, ◌*◌, ◌/◌, ◌%◌, ◌-◌, ◌^◌, Bool, true, false, List, [], ◌∷◌, ◌==◌, ◌&&◌, ltb,
  if◌then◌else◌, bit, bit_or, u32, truth, Option, none, some, ◌<<◌,
}
use mal_os.Libc.Memory.{Mem, memset}
use mal_os.Kernel.Processor.{load_double, store_double}
use mal_os.Paging.Kheap.{kmalloc, kmalloc_a, kmalloc_ap}
use mal_os.Paging.Frames.{FrameWords, Page, first_frame, index_from_bit, offset_from_bit}
use mal_os.Paging.Directory.{page_table_size, page_directory_size, tables_physical_offset}

-- The globals and the processor's registers; `frames` and `kernel_directory` are pointers.
pub record PagingMemory : Type 0 where
  pub mem : Mem
  pub placement_address : ℕ
  pub nframes : ℕ
  pub frames : ℕ
  pub kernel_directory : ℕ
  pub current_directory : ℕ
  pub cr0 : ℕ
  pub cr3 : ℕ

abbrev pub page_of_word : ℕ → Page
page_of_word w = record {
  present = w % 2;
  rw_bit = w / 2 ^ 1 % 2;
  user = w / 2 ^ 2 % 2;
  accessed = w / 2 ^ 3 % 2;
  dirty = w / 2 ^ 4 % 2;
  unused = w / 2 ^ 5 % 2 ^ 7;
  frame = w / 2 ^ 12 % 2 ^ 20;
}

abbrev pub word_of_page : Page → ℕ
word_of_page p =
    p.present
    + p.rw_bit * 2 ^ 1
    + p.user * 2 ^ 2
    + p.accessed * 2 ^ 3
    + p.dirty * 2 ^ 4
    + p.unused * 2 ^ 5
    + p.frame * 2 ^ 12

abbrev pub bitset : PagingMemory → FrameWords
bitset st n = load_double st.mem (st.frames + 4 * n)

abbrev pub page_at : PagingMemory → ℕ → Page
page_at st p = page_of_word (load_double st.mem p)

unfoldable pub set_frame_at : ℕ → PagingMemory → PagingMemory
set_frame_at frame_addr st =
    let frame = frame_addr / 0x1000 in
    let idx = index_from_bit frame in
    let off = offset_from_bit frame in
    record st {
      mem = store_double st.mem (st.frames + 4 * idx) (bit_or (bitset st idx) (1 << off));
    }

-- The fields are written one after the other into one word.
unfoldable pub alloc_frame_at : ℕ → ℕ → ℕ → PagingMemory → PagingMemory
alloc_frame_at p is_kernel is_writeable st =
    let idx = first_frame st.nframes (bitset st) in
    let st₁ = set_frame_at (u32 (idx * 0x1000)) st in
    let page : Page = record (page_at st₁ p) {
      present = 1;
      rw_bit = if truth is_writeable then 1 else 0;
      user = if truth is_kernel then 0 else 1;
      frame = idx % 2 ^ 20;
    } in
    if truth (page_at st p).frame
    then st
    else record st₁ { mem = store_double st₁.mem p (word_of_page page) }

unfoldable pub make_table_at : ℕ → ℕ → PagingMemory → PagingMemory
make_table_at table_idx dir st =
    let placed = kmalloc_ap page_table_size st.placement_address in
    let tmp = elim placed.phys as (λ x. ℕ) [ none ↦ 0 | some tmp ↦ tmp ] in
    let mem₁ = store_double st.mem (dir + 4 * table_idx) placed.address in
    record st {
      placement_address = placed.placement_address;
      mem = store_double mem₁ (dir + tables_physical_offset + 4 * table_idx) (bit_or tmp 0x7);
    }

unfoldable pub get_page_at : ℕ → ℕ → ℕ → PagingMemory → Option ℕ × PagingMemory
get_page_at address make dir st =
    let page = address / 0x1000 in
    let table_idx = page / 1024 in
    let table = load_double st.mem (dir + 4 * table_idx) in
    let made = make_table_at table_idx dir st in
    if truth table
    then (some (table + 4 * (page % 1024)), st)
    else if truth make
    then (some (load_double made.mem (dir + 4 * table_idx) + 4 * (page % 1024)), made)
    else (none, st)

-- The loop of `initialise_paging`; `none` is fuel that has run out, or a null pointer.
unfoldable pub map_pages_at : ℕ → ℕ → PagingMemory → Option PagingMemory
map_pages_at zero i st = none
map_pages_at (suc fuel) i st =
    let (page, st₁) = get_page_at i 1 st.kernel_directory st in
    if ltb i st.placement_address
    then elim page [
      | none ↦ none
      | some p ↦ map_pages_at fuel (u32 (i + 0x1000)) (alloc_frame_at p 0 0 st₁)
    ]
    else some st

-- Up to the loop.
unfoldable pub prepare_paging_at : PagingMemory → PagingMemory
prepare_paging_at st =
    let nframes : ℕ = 0x1000000 / 0x1000 in
    let bits = kmalloc (index_from_bit nframes) st.placement_address in
    let dir = kmalloc_a page_directory_size bits.placement_address in
    record st {
      mem = (memset bits.address 0 (index_from_bit nframes) st.mem).1;
      nframes = nframes;
      frames = bits.address;
      placement_address = dir.placement_address;
      kernel_directory = dir.address;
      current_directory = dir.address;
    }

unfoldable pub switch_page_directory_at : ℕ → PagingMemory → PagingMemory
switch_page_directory_at dir st = record st {
  current_directory = dir;
  cr3 = u32 (dir + tables_physical_offset);
  cr0 = bit_or st.cr0 0x80000000;
}

-- The entry of a table of 1024 words that the processor reads: the low 12 bits of the table's address
-- are not part of it.
abbrev pub entry_at : Mem → ℕ → ℕ → ℕ
entry_at m table i = load_double m (table / 0x1000 * 0x1000 + 4 * i)

-- The processor's page walk. It does not look at the rights, which do not bind code of level 0 with the
-- bit WP of `cr0` clear.
abbrev pub walk : Mem → ℕ → ℕ → Option ℕ
walk m cr3 a =
    let entry = entry_at m cr3 (a / 2 ^ 22) in
    let word = entry_at m entry (a / 0x1000 % 1024) in
    if bit 0 entry == 1 && bit 0 word == 1
    then some (word / 2 ^ 12 % 2 ^ 20 * 0x1000 + a % 0x1000)
    else none

abbrev pub is_some : Option ℕ → Bool
is_some none = false
is_some (some a) = true

-- The word at `a` is reached through the page walk.
abbrev pub is_mapped : PagingMemory → ℕ → Bool
is_mapped st a = is_some (walk st.mem st.cr3 (u32 a)) && is_some (walk st.mem st.cr3 (u32 (a + 3)))

-- A page fault pushes EFLAGS, CS, EIP and an error code. Where it cannot, the double fault that the
-- processor raises instead pushes as many words at the same place.
abbrev pub is_delivered : PagingMemory → ℕ → Bool
is_delivered st esp =
    is_mapped st (esp + 2 ^ 32 - 4)
    && (is_mapped st (esp + 2 ^ 32 - 8)
        && (is_mapped st (esp + 2 ^ 32 - 12) && is_mapped st (esp + 2 ^ 32 - 16)))

-- How `initialise_paging` ends: it returns, a page fault comes to its handler, or the processor resets,
-- as it does when it can deliver neither a fault nor the double fault.
pub data Ending : Type 0 where
  returns faults : PagingMemory → Ending
  resets : Ending

-- With paging on: the words of the stack that `switch_page_directory` and `initialise_paging` read until
-- they have returned, each with the stack pointer at the time, which the compiler decides on. The code
-- and the table of gates are in the kernel's image, below the placement address.
unfoldable pub read_stack : List (ℕ × ℕ) → PagingMemory → Ending
read_stack [] st = returns st
read_stack ((esp, a) ∷ rest) st =
    let later = read_stack rest st in
    if is_mapped st a then later else if is_delivered st esp then faults st else resets

-- Without the registration of `page_fault`, which touches none of this. `stack` is for `read_stack`; the
-- frames of the functions are not in the memory.
unfoldable pub initialise_paging_at : ℕ → List (ℕ × ℕ) → PagingMemory → Option Ending
initialise_paging_at fuel stack st = elim (map_pages_at fuel 0 (prepare_paging_at st)) [
  | none ↦ none
  | some st₁ ↦ some (read_stack stack (switch_page_directory_at st₁.kernel_directory st₁))
]
