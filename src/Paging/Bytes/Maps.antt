-- ===== src/Paging/Bytes/Maps.antt =====
-- `initialise_paging` on the bytes, and the processor's page walk afterwards.
use mal_os.Prelude.{
  ℕ, suc, ◌+◌, ◌*◌, ◌/◌, ◌%◌, ◌^◌, ◌<◌, ◌≤◌, ◌≡◌, refl, bit, bit-le, bit-bit_or, some, none, ◌⊎◌,
  ap, ◌∙◌, u32, ◌-◌, Bool, true, false, if◌then◌else◌, List, [], ◌∷◌, arith,
}
use native.Mathlib.Decide.{ℕ_discrete}
use mal_os.Libc.Memory.{Mem}
use mal_os.Paging.Directory.{tables_physical_offset}
use mal_os.Paging.Bytes.{
  PagingMemory, map_pages_at, prepare_paging_at, switch_page_directory_at, initialise_paging_at,
  walk, returns, resets, read_stack,
}
use mal_os.Paging.Bytes.Loop.{loop-Ends}
use mal_os.Paging.Bytes.Rounds.{IsMapped}
use mal_os.Paging.Bytes.Start.{IsFresh, first_table}

-- The page walk where the loop has been.
walk_own :
    (old : Mem) (start table last a cr3 : ℕ) (st : PagingMemory)
    → IsMapped old start table last st
    → cr3 ≡ st.kernel_directory + tables_physical_offset
    → st.placement_address ≤ last * 4096
    → a < st.placement_address
    → walk st.mem cr3 a ≡ some a
walk_own old start table last a cr3 st now walked far h =
    let at = now.placed in
    let first : cr3 / 0x1000 * 0x1000 + 4 * (a / 2 ^ 22)
        ≡ st.kernel_directory + tables_physical_offset =
      omega (arith, walked, at.aligned_root, at.low) in
    let here : (table + 7) / 0x1000 * 0x1000 ≡ table = omega (arith, at.aligned) in
    let set : bit 0 (table + 7) ≡ 1 = omega (arith, at.aligned) in
    let (frame, present, _) = now.own (a / 0x1000 % 1024) (omega arith) in
    rw (first, now.physical, here, set)
      (ground (arith, frame, present (omega (arith, at.low)), at.low))

-- And where it has not been.
walk_beyond :
    (old : Mem) (start table last a cr3 : ℕ) (st : PagingMemory)
    → IsMapped old start table last st
    → cr3 ≡ st.kernel_directory + tables_physical_offset
    → last * 4096 ≤ a
    → a < 2 ^ 32
    → walk st.mem cr3 a ≡ none
walk_beyond old start table last a cr3 st now walked far h =
    let at = now.placed in
    elim (ℕ_discrete (a / 2 ^ 22) 0) [
      | yes low ↦
          let first : cr3 / 0x1000 * 0x1000 + 4 * (a / 2 ^ 22)
              ≡ st.kernel_directory + tables_physical_offset =
            omega (arith, walked, at.aligned_root) in
          let here : (table + 7) / 0x1000 * 0x1000 ≡ table = omega (arith, at.aligned) in
          let (_, _, missing) = now.own (a / 0x1000 % 1024) (omega arith) in
          rw (first, now.physical, here) (ground (arith, missing (omega arith)))
      | no high ↦
          let first : cr3 / 0x1000 * 0x1000 + 4 * (a / 2 ^ 22)
              ≡ st.kernel_directory + tables_physical_offset + 4 * (a / 2 ^ 22) =
            omega (arith, walked, at.aligned_root) in
          rw (first, now.others (a / 2 ^ 22) high (omega arith)) (ground arith)
    ]

-- Where the two functions have their stack: below `start`, or, at the first word that they read and
-- where a fault would push, 36 KiB or more above it.
abbrev pub IsStack : Bool → ℕ → List (ℕ × ℕ) → Type 0
IsStack true start [] = Unit
IsStack true start ((esp, a) ∷ rest) = (a + 4 ≤ start) × IsStack true start rest
IsStack false start [] = ⊥
IsStack false start ((esp, a) ∷ rest) =
    (start + 0x9000 ≤ a) × (a < 2 ^ 32) × (start + 0x9004 ≤ esp) × (esp ≤ 2 ^ 32)

read_stack_low :
    (start : ℕ) (stack : List (ℕ × ℕ)) (st : PagingMemory)
    → start < 0x400000
    → ((a : ℕ) → a < start → walk st.mem st.cr3 a ≡ some a)
    → IsStack true start stack
    → read_stack stack st ≡ returns st
unfolding read_stack
read_stack_low start [] st small found low = refl
read_stack_low start ((esp, a) ∷ rest) st small found (h, low) =
    let first : u32 a ≡ a = omega arith in
    let last : u32 (a + 3) ≡ a + 3 = omega arith in
    rw (first, last, found a (omega arith), found (a + 3) (omega arith))
      (read_stack_low start rest st small found low)

read_stack_high :
    (start : ℕ) (stack : List (ℕ × ℕ)) (st : PagingMemory)
    → ((a : ℕ) → start + 0x9000 ≤ a → a < 2 ^ 32 → walk st.mem st.cr3 a ≡ none)
    → IsStack false start stack
    → read_stack stack st ≡ resets
unfolding read_stack
read_stack_high start [] st missing h = absurd h
read_stack_high start ((esp, a) ∷ rest) st missing (h, top, below, word) =
    let read : u32 a ≡ a = omega arith in
    let pushed : u32 (esp + 2 ^ 32 - 4) ≡ esp - 4 = omega arith in
    rw (read, pushed, missing a (omega arith) top, missing (esp - 4) (omega arith) (omega arith))
      refl

by_stack :
    (low : Bool) (start : ℕ) (stack : List (ℕ × ℕ)) (st : PagingMemory)
    → start < 0x400000
    → ((a : ℕ) → a < start → walk st.mem st.cr3 a ≡ some a)
    → ((a : ℕ) → start + 0x9000 ≤ a → a < 2 ^ 32 → walk st.mem st.cr3 a ≡ none)
    → IsStack low start stack
    → read_stack stack st ≡ (if low then returns st else resets)
by_stack true start stack st small found missing h = read_stack_low start stack st small found h
by_stack false start stack st small found missing h = read_stack_high start stack st missing h

initialise_paging_at_ends :
    (fuel : ℕ) (stack : List (ℕ × ℕ)) (st out : PagingMemory)
    → map_pages_at fuel 0 (prepare_paging_at st) ≡ some out
    → initialise_paging_at fuel stack st
      ≡ some (read_stack stack (switch_page_directory_at out.kernel_directory out))
unfolding initialise_paging_at
initialise_paging_at_ends fuel stack st out e = rw (e, initialise_paging_at) refl

-- Started at a placement address above 0 with 32 KiB of clear memory there, below 4 MiB, and with fuel
-- for 1024 rounds, `initialise_paging` comes to where it turns paging on, in a state in which, on the
-- bytes of the memory: the placement address has grown and is still below 4 MiB; no byte below the one
-- it started with, or from the one it leaves on, has changed; the bit of `cr0` that turns paging on is
-- set; and the page walk of the processor from `cr3` finds every address below the placement address at
-- itself, and no address that is a page or more above it. From there it returns in that state, if its
-- stack is below the placement address that it started with. If the stack is 36 KiB or more above that
-- address it never returns: the processor resets.
pub initialise_paging_at_lem :
    (fuel : ℕ) (low : Bool) (stack : List (ℕ × ℕ)) (st : PagingMemory)
    → IsFresh st
    → IsStack low st.placement_address stack
    → 1024 ≤ fuel
    → (st' : PagingMemory) × (initialise_paging_at (suc fuel) stack st
        ≡ some (if low then returns st' else resets))
      × (st.placement_address < st'.placement_address)
      × (st'.placement_address < 0x400000)
      × ((p : ℕ) → (p < st.placement_address) ⊎ (st'.placement_address ≤ p) → st'.mem p ≡ st.mem p)
      × (bit 31 st'.cr0 ≡ 1)
      × ((a : ℕ) → a < st'.placement_address → walk st'.mem st'.cr3 a ≡ some a)
      × ((a : ℕ) → st'.placement_address + 0x1000 ≤ a → a < 2 ^ 32 → walk st'.mem st'.cr3 a ≡ none)
unfolding switch_page_directory_at
initialise_paging_at_lem fuel low stack st fresh placed enough =
    let (out, last, ends, far, near, most, now) = loop-Ends fuel st fresh enough in
    let start = st.placement_address in
    let table = first_table (prepare_paging_at st) in
    let at = now.placed in
    let st' = switch_page_directory_at out.kernel_directory out in
    let walked : st'.cr3 ≡ out.kernel_directory + tables_physical_offset =
      omega (arith, at.low, at.first_table, at.end) in
    let found : (a : ℕ) → a < st'.placement_address → walk st'.mem st'.cr3 a ≡ some a =
      λ a h. walk_own st.mem start table last a st'.cr3 out now walked far h in
    let missing : (a : ℕ)
        → st'.placement_address + 0x1000 ≤ a
        → a < 2 ^ 32
        → walk st'.mem st'.cr3 a ≡ none =
      λ a h top.
        walk_beyond st.mem start table last a st'.cr3 out now walked (omega (arith, near)) top in
    let grown : start < st'.placement_address =
      omega (arith, at.behind, at.directory, at.first_table, at.end) in
    (
      st',
      initialise_paging_at_ends (suc fuel) stack st out ends
          ∙ ap some (
              by_stack low start stack st' (omega (arith, grown, at.low))
                (λ a h. found a (omega (arith, grown)))
                (λ a h top. missing a (omega (arith, at.in_room)) top) placed),
      grown,
      at.low,
      λ p apart. now.outside p (ground (arith, at.behind)),
      omega (arith, bit-bit_or 31 out.cr0 0x80000000, bit-le 31 out.cr0),
      found,
      missing,
    )
