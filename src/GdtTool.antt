-- ===== src/GdtTool.antt =====
-- gdt_tool.c, which packs segment descriptors on the host. `create_descriptor` prints its result; here
-- it returns it.
pub mod Fields
mod Tests
use mal_os.Prelude.{ℕ, ◌+◌, ◌*◌, ◌^◌, bit_and, bit_or, u16, u32, u64, ◌<<◌, ◌>>◌, List, [], ◌∷◌}

abbrev pub seg_desctype : ℕ → ℕ
seg_desctype x = x << 0x04

abbrev pub seg_pres : ℕ → ℕ
seg_pres x = x << 0x07

abbrev pub seg_savl : ℕ → ℕ
seg_savl x = x << 0x0C

abbrev pub seg_long : ℕ → ℕ
seg_long x = x << 0x0D

abbrev pub seg_size : ℕ → ℕ
seg_size x = x << 0x0E

abbrev pub seg_gran : ℕ → ℕ
seg_gran x = x << 0x0F

abbrev pub seg_priv : ℕ → ℕ
seg_priv x = bit_and x 0x03 << 0x05

abbrev pub seg_data_rdwr : ℕ
seg_data_rdwr = 0x02

abbrev pub seg_code_exrd : ℕ
seg_code_exrd = 0x0A

-- What GDT_CODE_PL0, GDT_DATA_PL0, GDT_CODE_PL3 and GDT_DATA_PL3 have in common.
abbrev pub gdt_flags : ℕ → ℕ → ℕ
gdt_flags level kind =
    bit_or
      (bit_or
        (bit_or
          (bit_or (bit_or (bit_or (bit_or (seg_desctype 1) (seg_pres 1)) (seg_savl 0)) (seg_long 0))
            (seg_size 1))
          (seg_gran 1))
        (seg_priv level))
      kind

abbrev pub gdt_code_pl0 : ℕ
gdt_code_pl0 = gdt_flags 0 seg_code_exrd

abbrev pub gdt_data_pl0 : ℕ
gdt_data_pl0 = gdt_flags 0 seg_data_rdwr

abbrev pub gdt_code_pl3 : ℕ
gdt_code_pl3 = gdt_flags 3 seg_code_exrd

abbrev pub gdt_data_pl3 : ℕ
gdt_data_pl3 = gdt_flags 3 seg_data_rdwr

-- The arguments are a `uint32_t`, a `uint32_t` and a `uint16_t`; `base << 16` is a `uint32_t`.
unfoldable pub create_descriptor : ℕ → ℕ → ℕ → ℕ
create_descriptor base limit flag =
    let d₁ = bit_and limit 0x000F0000 in
    let d₂ = bit_or d₁ (bit_and (flag << 8) 0x00F0FF00) in
    let d₃ = bit_or d₂ (bit_and (base >> 16) 0x000000FF) in
    let d₄ = bit_or d₃ (bit_and base 0xFF000000) in
    let d₅ = u64 (d₄ << 32) in
    let d₆ = bit_or d₅ (u32 (base << 16)) in bit_or d₆ (bit_and limit 0x0000FFFF)

-- `main`, with what it prints.
unfoldable pub main : List ℕ
main =
    create_descriptor 0 0 0
    ∷ create_descriptor 0 0x000FFFFF gdt_code_pl0
    ∷ create_descriptor 0 0x000FFFFF gdt_data_pl0
    ∷ create_descriptor 0 0x000FFFFF gdt_code_pl3
    ∷ create_descriptor 0 0x000FFFFF gdt_data_pl3
    ∷ []
