-- ===== src/Paging/Bytes/Start.antt =====
-- `initialise_paging` on the bytes up to its first round.
use mal_os.Prelude.{
  ℕ, ◌+◌, ◌*◌, ◌/◌, ◌%◌, ◌^◌, ◌<◌, ◌≤◌, ◌≡◌, refl, ◌∙◌, ap, ltb, true, false, bit, bit_or, bit-zero,
  bit_or_beside, leb, ◌&&◌, Bool-cases, ◌⊎◌, inl, inr, arith, sym, subst,
}
use mal_os.Libc.Memory.{Mem, memset}
use mal_os.Libc.Memory.Fill.{memset_lem}
use mal_os.Kernel.Processor.{load_double, store_double}
use mal_os.Kernel.Processor.Stack.{load-store_double, load-store_apart, store_double_outside}
use mal_os.Paging.Kheap.{kmalloc, kmalloc_a, kmalloc_ap, kmalloc_int}
use mal_os.Paging.Kheap.Blocks.{kmalloc_int_lem}
use mal_os.Paging.Directory.{tables_physical_offset}
use mal_os.Paging.Bytes.{PagingMemory, make_table_at, prepare_paging_at, page_of_word}
use mal_os.Paging.Bytes.Words.{words}
use mal_os.Paging.Bytes.Rounds.{IsMapped}

-- There are 32 KiB of clear memory at the placement address, below 4 MiB.
pub record IsFresh (st : PagingMemory) : Type 0 where
  pub some_place : 0 < st.placement_address
  pub room : st.placement_address + 0x8000 ≤ 0x400000
  pub clear : (p : ℕ) → st.placement_address ≤ p → p < st.placement_address + 0x8000 → st.mem p ≡ 0

pub load_double-clear :
    (m : Mem) (lo hi a : ℕ)
    → ((p : ℕ) → lo ≤ p → p < hi → m p ≡ 0)
    → lo ≤ a
    → a + 4 ≤ hi
    → load_double m a ≡ 0
unfolding load_double
load_double-clear m lo hi a clear h h' = omega (
  arith,
  clear a (omega arith) (omega arith),
  clear (a + 1) (omega arith) (omega arith),
  clear (a + 2) (omega arith) (omega arith),
  clear (a + 3) (omega arith) (omega arith),
)

-- Before the first round.
pub record IsPrepared (st st₀ : PagingMemory) : Type 0 where
  pub whole : st₀.nframes ≡ 4096
  pub bits : st₀.frames ≡ st.placement_address
  pub directory : st₀.frames + 128 ≤ st₀.kernel_directory
  pub near : st₀.kernel_directory < st₀.frames + 128 + 4096
  pub aligned_root : st₀.kernel_directory % 4096 ≡ 0
  pub place : st₀.placement_address ≡ st₀.kernel_directory + 8196
  pub clear : (p : ℕ) → st.placement_address ≤ p → p < st.placement_address + 0x8000 → st₀.mem p ≡ 0
  pub same : (p : ℕ) → st₀.mem p ≡ st.mem p

pub prepare_paging_at_lem : (st : PagingMemory) → IsFresh st → IsPrepared st (prepare_paging_at st)
unfolding prepare_paging_at kmalloc kmalloc_a
prepare_paging_at_lem st fresh =
    let bits = kmalloc_int_lem 128 0 false st.placement_address (omega (arith, fresh.room)) in
    let f = (kmalloc_int 128 0 false st.placement_address).address in
    let place = (kmalloc_int 128 0 false st.placement_address).placement_address in
    let dir = kmalloc_int_lem 8196 1 false place (omega (arith, fresh.room, bits)) in
    let here : f ≡ st.placement_address = bits.3 (omega arith) in
    let same : (p : ℕ) → (memset f 0 128 st.mem).1 p ≡ st.mem p = λ p.
      (memset_lem f 0 128 st.mem).1 p ∙ elim (Bool-cases (leb f p && ltb p (f + 128))) [
        | inl in_bits ↦
            rw in_bits
              (sym (fresh.clear p (ground (arith, here)) (ground (arith, here, fresh.room))))
        | inr out ↦ rw out refl
      ] in
    record {
      whole = refl;
      bits = here;
      directory = omega (arith, bits, dir);
      near = omega (arith, bits, dir);
      aligned_root = dir.2 refl;
      place = omega (arith, dir);
      clear = λ p lo hi. same p ∙ fresh.clear p lo hi;
      same = same;
    }

-- The table that the first round makes.
abbrev pub first_table : PagingMemory → ℕ
first_table st₀ = (kmalloc_int 4096 1 true st₀.placement_address).address

abbrev with_table : PagingMemory → ℕ → ℕ → Mem
with_table st₀ table entry =
    store_double (store_double st₀.mem st₀.kernel_directory table)
      (st₀.kernel_directory + tables_physical_offset) entry

make_table_at-mem :
    (st₀ : PagingMemory)
    → st₀.placement_address + 8192 < 2 ^ 32
    → make_table_at 0 st₀.kernel_directory st₀ ≡ record st₀ {
      placement_address = first_table st₀ + 4096;
      mem = with_table st₀ (first_table st₀) (first_table st₀ + 7);
    }
unfolding make_table_at kmalloc_ap
make_table_at-mem st₀ room =
    let (lo, hi, aligned, _, stored, place) =
      kmalloc_int_lem 4096 1 true st₀.placement_address (omega arith) in
    let a = first_table st₀ in
    let on_page = aligned refl in
    let flags : bit_or a 0x7 ≡ a + 7 =
      ground (arith, bit_or_beside 12 (a / 2 ^ 12) 0x7 a (omega arith) (omega arith)) in
    let slot : st₀.kernel_directory + 4 * 0 ≡ st₀.kernel_directory = omega arith in
    let entry : st₀.kernel_directory + tables_physical_offset + 4 * 0
        ≡ st₀.kernel_directory + tables_physical_offset =
      omega arith in
    rw (stored, place, flags, slot, entry) refl

with_table-load :
    (st₀ : PagingMemory) (table entry b : ℕ)
    → (b + 4 ≤ st₀.kernel_directory) ⊎ (st₀.kernel_directory + 4 ≤ b)
    → (b + 4 ≤ st₀.kernel_directory + 4096) ⊎ (st₀.kernel_directory + 4100 ≤ b)
    → load_double (with_table st₀ table entry) b ≡ load_double st₀.mem b
with_table-load st₀ table entry b h h' =
    load-store_apart (store_double st₀.mem st₀.kernel_directory table)
      (st₀.kernel_directory + tables_physical_offset) b entry (ground arith)
    ∙ load-store_apart st₀.mem st₀.kernel_directory b table (ground arith)

pub make_table_at-IsMapped :
    (st st₀ : PagingMemory)
    → IsFresh st
    → IsPrepared st st₀
    → IsMapped st.mem st.placement_address
        (first_table st₀)
        0
        (make_table_at 0 st₀.kernel_directory st₀)
make_table_at-IsMapped st st₀ fresh prepared =
    let (lo, hi, aligned, _, _, _) =
      kmalloc_int_lem 4096 1 true st₀.placement_address
        (omega (arith, prepared.place, prepared.near, prepared.bits, fresh.room)) in
    let table = first_table st₀ in
    let root = st₀.kernel_directory in
    let f = st₀.frames in
    let m₂ = with_table st₀ table (table + 7) in
    let low : table + 4096 < 0x400000 =
      omega (arith, prepared.place, prepared.near, prepared.bits, fresh.room) in
    let in_room : table + 4096 ≤ st.placement_address + 0x8000 =
      omega (arith, prepared.place, prepared.near, prepared.bits) in
    let clear =
      λ (a : ℕ) (from : st.placement_address ≤ a) (to : a + 4 ≤ st.placement_address + 0x8000).
        load_double-clear st₀.mem st.placement_address (st.placement_address + 0x8000) a
          prepared.clear from to in
    let no_bits : (i : ℕ) → i < 32 → words m₂ f i ≡ 0 = λ i lt.
      with_table-load st₀ table (table + 7) (f + 4 * i) (inl (omega (arith, prepared.directory)))
        (inl (omega (arith, prepared.directory)))
      ∙ clear (f + 4 * i) (omega (arith, prepared.bits))
          (omega (arith, in_room, prepared.directory, prepared.place)) in
    let no_page : (j : ℕ) → j < 1024 → load_double m₂ (table + 4 * j) ≡ 0 = λ j lt.
      with_table-load st₀ table (table + 7) (table + 4 * j) (inr (omega (arith, prepared.place)))
        (inr (omega (arith, prepared.place)))
      ∙ clear (table + 4 * j) (omega (arith, prepared.bits, prepared.directory, prepared.place))
          (omega (arith, in_room)) in
    subst (IsMapped st.mem st.placement_address table 0)
      (sym (make_table_at-mem st₀ (omega (arith, low))))
      (record {
        whole = prepared.whole;
        placed = record {
          behind = omega (arith, prepared.bits);
          directory = prepared.directory;
          aligned_root = prepared.aligned_root;
          first_table = omega (arith, prepared.place);
          aligned = aligned refl;
          end = refl;
          low = low;
          in_room = in_room;
        };
        there =
            load-store_apart (store_double st₀.mem root table) (root + tables_physical_offset) root
              (table + 7) (inr (omega arith))
            ∙ load-store_double st₀.mem root table (omega (arith, low));
        physical =
            load-store_double (store_double st₀.mem root table) (root + tables_physical_offset)
              (table + 7) (omega (arith, low));
        others = λ i ne lt.
            with_table-load st₀ table (table + 7) (root + tables_physical_offset + 4 * i)
              (inr (omega arith)) (inr (omega arith))
            ∙ clear (root + tables_physical_offset + 4 * i)
                (omega (arith, prepared.bits, prepared.directory))
                (omega (arith, in_room, prepared.place));
        sized = λ i lt. omega (arith, no_bits i lt);
        used_below = λ k lt.
            ap (bit (k % 32)) (no_bits (k / 32) (omega arith)) ∙ bit-zero (k % 32) ∙ ground arith;
        own = λ j lt. (
          ap (λ w. (page_of_word w).frame) (no_page j lt) ∙ ground arith,
          λ below. absurd (omega arith),
          λ _. ap (λ w. (page_of_word w).present) (no_page j lt),
        );
        outside = λ p out.
            store_double_outside (store_double st₀.mem root table) (root + tables_physical_offset)
              (table + 7) p (ground (arith, prepared.directory, prepared.place))
            ∙ store_double_outside st₀.mem root table p
                (ground (arith, prepared.directory, prepared.place))
            ∙ prepared.same p;
      })
