-- ===== src/Paging/Kheap.antt =====
-- BIOS/kernel/paging/kheap.c, the placement allocator. Its state is `placement_address`; the pointer
-- `phys` is whether it is given, and what is stored through it is an option beside the result.
pub mod Blocks
mod Tests
use mal_os.Prelude.{
  ℕ, ◌+◌, ◌^◌, bit_and, Bool, true, false, ◌&&◌, ◌==◌, if◌then◌else◌, Option, none, some, u32,
  truth,
}

-- The result, `*phys`, and the new placement address.
pub record Placed : Type 0 where
  pub address : ℕ
  pub phys : Option ℕ
  pub placement_address : ℕ

abbrev pub align_page : ℕ → ℕ → ℕ
align_page align placement =
    if align == 1 && truth (bit_and placement 0x00000FFF)
    then u32 (bit_and placement 0xFFFFF000 + 0x1000)
    else placement

unfoldable pub kmalloc_int : ℕ → ℕ → Bool → ℕ → Placed
kmalloc_int sz align phys placement =
    let tmp = align_page align placement in
    record {
      address = tmp;
      phys = if phys then some tmp else none;
      placement_address = u32 (tmp + sz);
    }

unfoldable pub kmalloc_a : ℕ → ℕ → Placed
kmalloc_a sz placement = kmalloc_int sz 1 false placement

unfoldable pub kmalloc_p : ℕ → ℕ → Placed
kmalloc_p sz placement = kmalloc_int sz 0 true placement

unfoldable pub kmalloc_ap : ℕ → ℕ → Placed
kmalloc_ap sz placement = kmalloc_int sz 1 true placement

unfoldable pub kmalloc : ℕ → ℕ → Placed
kmalloc sz placement = kmalloc_int sz 0 false placement
