-- ===== src/Paging/Kheap/Blocks.antt =====
-- The blocks that the placement allocator gives out.
use mal_os.Prelude.{
  ℕ, ◌+◌, ◌-◌, ◌*◌, ◌/◌, ◌%◌, ◌^◌, ◌≤◌, ◌<◌, ◌≡◌, ◌≢◌, refl, ◌⊎◌, inl, inr, bit_and, Bool, false,
  if◌then◌else◌, none, some, List, [], ◌∷◌, arith, ◌==◌, bit_and-ones, bit_and-shifted,
}
use native.Mathlib.Decide.{ℕ_discrete}
use mal_os.Paging.Kheap.{align_page, kmalloc_int}

-- `&` with the two masks, as arithmetic.
page_rest : (n : ℕ) → bit_and n 0xFFF ≡ n % 4096
page_rest n = bit_and-ones 12 n

page_base : (n : ℕ) → n < 2 ^ 32 → bit_and n 0xFFFFF000 ≡ n / 4096 * 4096
page_base n h = omega (arith, bit_and-shifted 12 (2 ^ 20 - 1) n, bit_and-ones 20 (n / 4096))

-- The placement address is rounded up to the next page exactly if it is asked for.
pub align_page_lem :
    (align placement : ℕ)
    → placement + 4096 ≤ 2 ^ 32
    → ((align ≡ 1)
        × (align_page align placement % 4096 ≡ 0)
        × (placement ≤ align_page align placement)
        × (align_page align placement < placement + 4096))
      ⊎ ((align ≢ 1) × (align_page align placement ≡ placement))
align_page_lem align placement h = elim (ℕ_discrete align 1) [
  | yes e ↦ inl (
    e,
    ground (arith, page_rest placement, page_base placement (omega arith)),
    ground (arith, page_rest placement, page_base placement (omega arith)),
    ground (arith, page_rest placement, page_base placement (omega arith)),
  )
  | no ne ↦ inr (ne, ground arith)
]

-- A block that fits below 4 GiB with a page to spare begins at or behind the placement address, by less than a page, on a
-- page's boundary if `align` is 1 and exactly there if not; its address is also stored through
-- `phys` if that is given; and the placement address becomes the end of the block.
pub kmalloc_int_lem :
    (sz align : ℕ) (phys : Bool) (placement : ℕ)
    → placement + 4096 + sz < 2 ^ 32
    → let out = kmalloc_int sz align phys placement in
      (placement ≤ out.address)
      × (out.address < placement + 4096)
      × (align ≡ 1 → out.address % 4096 ≡ 0)
      × (align ≢ 1 → out.address ≡ placement)
      × (out.phys ≡ (if phys then some out.address else none))
      × (out.placement_address ≡ out.address + sz)
unfolding kmalloc_int
kmalloc_int_lem sz align phys placement h = elim (align_page_lem align placement (omega arith)) [
  | inl (one, aligned, lo, hi) ↦ (lo, hi, λ _. aligned, λ ne. absurd (ne one), refl, omega arith)
  | inr (ne, same) ↦
      (omega arith, omega arith, λ one. absurd (ne one), λ _. same, refl, omega arith)
]

-- Calls one after the other, each a size and an alignment: the blocks given out, as first address
-- and size.
abbrev pub run : List (ℕ × ℕ) → ℕ → List (ℕ × ℕ)
run [] placement = []
run ((sz, align) ∷ rs) placement =
    let out = kmalloc_int sz align false placement in
    (out.address, sz) ∷ run rs out.placement_address

-- Where a block begins, and where the last one ends, as numbers without a bound.
abbrev pub begins : ℕ → ℕ → ℕ
begins align placement = if align == 1 then (placement + 4095) / 4096 * 4096 else placement

abbrev pub end_of : List (ℕ × ℕ) → ℕ → ℕ
end_of [] placement = placement
end_of ((sz, align) ∷ rs) placement = end_of rs (begins align placement + sz)

-- Each block has the size asked for, lies behind the one before it, and begins on a page's boundary
-- if that was asked for.
abbrev pub Serves : ℕ → List (ℕ × ℕ) → List (ℕ × ℕ) → Type 0
Serves from [] [] = Unit
Serves from [] (b ∷ bs) = ⊥
Serves from (r ∷ rs) [] = ⊥
Serves from ((sz, align) ∷ rs) ((a, n) ∷ bs) =
    (from ≤ a) × (n ≡ sz) × (align ≡ 1 → a % 4096 ≡ 0) × Serves (a + sz) rs bs
