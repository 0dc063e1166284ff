-- ===== src/Paging/Bytes/Tests.antt =====
-- A memory of zeros, mapped.
use mal_os.Prelude.{
  List, [], ◌∷◌, false, ℕ, suc, ◌+◌, ◌^◌, ◌<◌, ◌≤◌, ◌≡◌, ◌⊎◌, bit, ltb, if◌then◌else◌, some, none,
  arith,
}
use mal_os.Paging.Bytes.{returns, resets, PagingMemory, initialise_paging_at, walk}
use mal_os.Paging.Bytes.Start.{IsFresh}
use mal_os.Paging.Bytes.Maps.{initialise_paging_at_lem}

-- Other bytes stand below the placement address, and from 0x90000 on.
abbrev clear_above : PagingMemory
clear_above = record {
  mem = λ p. if ltb p 0x5123 then 0xcc else if ltb p 0x90000 then 0 else 0x20;
  placement_address = 0x5123;
  nframes = 0;
  frames = 0;
  kernel_directory = 0;
  current_directory = 0;
  cr0 = 0x11;
  cr3 = 0;
}

clear_above-clear : (p : ℕ) → 0x5123 ≤ p → p < 0x5123 + 0x8000 → clear_above.mem p ≡ 0
clear_above-clear p lo hi = ground arith

clear_above-IsFresh : IsFresh clear_above
clear_above-IsFresh = record {
  some_place = omega arith;
  room = omega arith;
  clear = clear_above-clear;
}

-- Two frames on the stack that the boot sector has set up, below 0x90000.
abbrev boot_stack : List (ℕ × ℕ)
boot_stack = (0x8FF80, 0x8FF9C) ∷ (0x8FF9C, 0x8FFA0) ∷ []

initialise_paging_at_lem_example :
    (st' : PagingMemory) × (initialise_paging_at (suc 1024) boot_stack clear_above
      ≡ some (if false then returns st' else resets))
    × (0x5123 < st'.placement_address)
    × (st'.placement_address < 0x400000)
    × ((p : ℕ) → (p < 0x5123) ⊎ (st'.placement_address ≤ p) → st'.mem p ≡ clear_above.mem p)
    × (bit 31 st'.cr0 ≡ 1)
    × ((a : ℕ) → a < st'.placement_address → walk st'.mem st'.cr3 a ≡ some a)
    × ((a : ℕ) → st'.placement_address + 0x1000 ≤ a → a < 2 ^ 32 → walk st'.mem st'.cr3 a ≡ none)
initialise_paging_at_lem_example =
    initialise_paging_at_lem 1024 false boot_stack clear_above clear_above-IsFresh
      (omega arith, omega arith, omega arith, omega arith) (omega arith)
