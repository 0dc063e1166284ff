-- ===== src/Paging/Bytes/Loop.antt =====
-- The loop of `initialise_paging` on the bytes.
use mal_os.Prelude.{
  ℕ, zero, suc, ◌+◌, ◌*◌, ◌/◌, ◌%◌, ◌<◌, ◌≤◌, ◌≡◌, refl, ◌∙◌, ap, ltb, truth, true, false, u32,
  Option, some, arith, sym, subst,
}
use native.Mathlib.Decide.{dec_lt}
use mal_os.Libc.Memory.{Mem}
use mal_os.Kernel.Processor.{load_double}
use mal_os.Paging.Bytes.{
  PagingMemory, make_table_at, get_page_at, alloc_frame_at, map_pages_at, prepare_paging_at,
}
use mal_os.Paging.Bytes.Rounds.{IsMapped, alloc_frame_at-IsMapped}
use mal_os.Paging.Bytes.Start.{
  IsFresh, prepare_paging_at_lem, first_table, make_table_at-IsMapped, load_double-clear,
}

get_page_at_there :
    (old : Mem) (start table n : ℕ) (st : PagingMemory)
    → n < 1024
    → IsMapped old start table n st
    → get_page_at (n * 4096) 1 st.kernel_directory st ≡ (some (table + 4 * n), st)
unfolding get_page_at
get_page_at_there old start table n st h now =
    let entry : n * 4096 / 4096 / 1024 ≡ 0 = omega arith in
    let index : n * 4096 / 4096 % 1024 ≡ n = omega arith in
    let slot : st.kernel_directory + 4 * 0 ≡ st.kernel_directory = omega arith in
    let some_table : truth table ≡ true = ground (arith, now.placed.first_table) in
    rw (entry, index, slot, now.there, some_table) refl

get_page_at_makes :
    (old : Mem) (start table : ℕ) (st : PagingMemory)
    → load_double st.mem st.kernel_directory ≡ 0
    → let st₁ = make_table_at 0 st.kernel_directory st in
      load_double st₁.mem st.kernel_directory ≡ table
      → get_page_at 0 1 st.kernel_directory st ≡ (some (table + 4 * 0), st₁)
unfolding get_page_at
get_page_at_makes old start table st missing made =
    let slot : st.kernel_directory + 4 * 0 ≡ st.kernel_directory = omega arith in
    rw (slot, missing, made) refl

map_pages_at_round :
    (fuel i p : ℕ) (st st₁ : PagingMemory)
    → i < st.placement_address
    → get_page_at i 1 st.kernel_directory st ≡ (some p, st₁)
    → map_pages_at (suc fuel) i st ≡ map_pages_at fuel (u32 (i + 0x1000)) (alloc_frame_at p 0 0 st₁)
unfolding map_pages_at
map_pages_at_round fuel i p st st₁ h e =
    let more : ltb i st.placement_address ≡ true = ground arith in
    rw (map_pages_at, more, e)
      (ap (λ z. map_pages_at fuel (u32 (i + 0x1000)) (alloc_frame_at p 0 0 z)) (ap (λ z. z.1) e))

map_pages_at_end :
    (fuel i : ℕ) (st : PagingMemory)
    → st.placement_address ≤ i
    → map_pages_at (suc fuel) i st ≡ some st
unfolding map_pages_at
map_pages_at_end fuel i st h =
    let done : ltb i st.placement_address ≡ false = ground arith in rw (map_pages_at, done) refl

-- How the loop ends.
abbrev pub Ends : Mem → ℕ → ℕ → Option PagingMemory → Type 0
Ends old start table out =
    (st' : PagingMemory) × (last : ℕ) × (out ≡ some st')
    × (st'.placement_address ≤ last * 4096)
    × (last * 4096 < st'.placement_address + 4096)
    × (last ≤ 1024)
    × IsMapped old start table last st'

Ends-round :
    (old : Mem) (start table fuel n : ℕ) (st : PagingMemory)
    → n < 1024
    → n * 4096 < st.placement_address
    → IsMapped old start table n st
    → Ends old start table
        (map_pages_at fuel ((n + 1) * 4096) (alloc_frame_at (table + 4 * n) 0 0 st))
    → Ends old start table (map_pages_at (suc fuel) (n * 4096) st)
Ends-round old start table fuel n st small h now (st', last, e, far, near, most, done) =
    let next : u32 (n * 4096 + 0x1000) ≡ (n + 1) * 4096 = omega arith in
    let st₁ = alloc_frame_at (table + 4 * n) 0 0 st in
    let round =
      map_pages_at_round fuel (n * 4096) (table + 4 * n) st st h
        (get_page_at_there old start table n st small now) in
    (st', last, round ∙ ap (λ i. map_pages_at fuel i st₁) next ∙ e, far, near, most, done)

Ends-done :
    (old : Mem) (start table fuel n : ℕ) (st : PagingMemory)
    → n ≤ 1024
    → n * 4096 < table + 8192
    → st.placement_address ≤ n * 4096
    → IsMapped old start table n st
    → Ends old start table (map_pages_at (suc fuel) (n * 4096) st)
Ends-done old start table fuel n st inside close far now = (
  st,
  n,
  map_pages_at_end fuel (n * 4096) st far,
  far,
  omega (arith, now.placed.end),
  inside,
  now,
)

map_pages_at-Ends :
    (old : Mem) (start table fuel n : ℕ) (st : PagingMemory)
    → table + 4096 ≤ 4096 * (n + fuel)
    → n ≤ 1024
    → n * 4096 < table + 8192
    → IsMapped old start table n st
    → Ends old start table (map_pages_at (suc fuel) (n * 4096) st)
map_pages_at-Ends old start table zero n st enough inside close now =
    Ends-done old start table zero n st inside close (omega (arith, now.placed.end)) now
map_pages_at-Ends old start table (suc fuel) n st enough inside close now =
    elim (dec_lt (n * 4096) st.placement_address) [
      | no h ↦ Ends-done old start table (suc fuel) n st inside close (omega arith) now
      | yes h ↦
          let small : n < 1024 = omega (arith, now.placed.end, now.placed.low) in
          Ends-round old start table (suc fuel) n st small h now (
            map_pages_at-Ends old start table fuel (n + 1) (alloc_frame_at (table + 4 * n) 0 0 st)
              (omega arith) (omega arith) (omega (arith, now.placed.end))
              (alloc_frame_at-IsMapped old start table n st small now))
    ]

-- The whole loop. Its first round makes the table.
pub loop-Ends :
    (fuel : ℕ) (st : PagingMemory)
    → IsFresh st
    → 1024 ≤ fuel
    → let st₀ = prepare_paging_at st in
      Ends st.mem st.placement_address (first_table st₀) (map_pages_at (suc fuel) 0 st₀)
loop-Ends fuel st fresh enough =
    let st₀ = prepare_paging_at st in
    let prepared = prepare_paging_at_lem st fresh in
    let table = first_table st₀ in
    let st₁ = make_table_at 0 st₀.kernel_directory st₀ in
    let now = make_table_at-IsMapped st st₀ fresh prepared in
    let missing : load_double st₀.mem st₀.kernel_directory ≡ 0 =
      load_double-clear st₀.mem st.placement_address (st.placement_address + 0x8000)
        st₀.kernel_directory prepared.clear (omega (arith, prepared.bits, prepared.directory))
        (omega (arith, prepared.bits, prepared.near, fresh.room)) in
    let round₀ = map_pages_at_round fuel 0 (table + 4 * 0) st₀ st₁ (omega (arith, prepared.place)) (
      get_page_at_makes st.mem st.placement_address table st₀ missing
        (unfold make_table_at in now.there)) in
    let round₁ =
      map_pages_at_round fuel 0 (table + 4 * 0) st₁ st₁ (omega (arith, now.placed.end))
        (get_page_at_there st.mem st.placement_address table 0 st₁ (omega arith) now) in
    subst (Ends st.mem st.placement_address table) (sym (round₀ ∙ sym round₁)) (
      map_pages_at-Ends st.mem st.placement_address table fuel 0 st₁
        (omega (arith, now.placed.end, now.placed.low)) (omega arith) (omega arith) now)
