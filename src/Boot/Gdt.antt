-- ===== src/Boot/Gdt.antt =====
-- BIOS/boot/gdt.asm, and what the processor makes of a segment's descriptor.
use mal_os.Prelude.{
  ℕ, ◌+◌, ◌-◌, ◌*◌, ◌/◌, ◌%◌, ◌^◌, ◌<◌, ◌≡◌, refl, ◌∙◌, ap, ◌==◌, ◌&&◌, leb, if◌then◌else◌, u32,
  get_elem?, Option, none, some, List, [], ◌∷◌, ◌++◌, arith,
}
use mal_os.Libc.Memory.{Mem}
use mal_os.GdtTool.{create_descriptor, gdt_code_pl0, gdt_data_pl0}

abbrev pub gdt_null : List ℕ
gdt_null = 0 ∷ 0 ∷ 0 ∷ 0 ∷ 0 ∷ 0 ∷ 0 ∷ 0 ∷ []

abbrev pub gdt_code : List ℕ
gdt_code = 0xff ∷ 0xff ∷ 0 ∷ 0 ∷ 0 ∷ 0b10011010 ∷ 0b11001111 ∷ 0 ∷ []

abbrev pub gdt_data : List ℕ
gdt_data = 0xff ∷ 0xff ∷ 0 ∷ 0 ∷ 0 ∷ 0b10010010 ∷ 0b11001111 ∷ 0 ∷ []

abbrev pub gdt : List ℕ
gdt = gdt_null ++ (gdt_code ++ gdt_data)

abbrev pub code_seg : ℕ
code_seg = 8

abbrev pub data_seg : ℕ
data_seg = 16

-- The bytes from an address on.
abbrev pub Stands : List ℕ → ℕ → Mem → Type 0
Stands bytes a m = (i b : ℕ) → get_elem? bytes i ≡ some b → m (a + i) ≡ b

-- The descriptor that a selector names in a table at `g`, and its fields.
abbrev pub descriptor : Mem → ℕ → ℕ
descriptor m a =
    m a
    + m (a + 1) * 2 ^ 8
    + m (a + 2) * 2 ^ 16
    + m (a + 3) * 2 ^ 24
    + m (a + 4) * 2 ^ 32
    + m (a + 5) * 2 ^ 40
    + m (a + 6) * 2 ^ 48
    + m (a + 7) * 2 ^ 56

abbrev pub base_of : ℕ → ℕ
base_of d = d / 2 ^ 56 * 2 ^ 24 + d / 2 ^ 16 % 2 ^ 24

-- The last offset, by the granularity.
abbrev pub limit_of : ℕ → ℕ
limit_of d =
    let raw = d / 2 ^ 48 % 2 ^ 4 * 2 ^ 16 + d % 2 ^ 16 in
    if d / 2 ^ 55 % 2 == 1 then raw * 2 ^ 12 + 0xFFF else raw

-- The linear address of an offset, through a table of that address and limit; `none` is an exception.
unfoldable pub translate : Mem → ℕ → ℕ → ℕ → ℕ → Option ℕ
translate m g table_limit sel off =
    let d = descriptor m (g + sel) in
    if leb (sel + 7) table_limit && (d / 2 ^ 47 % 2 == 1 && leb off (limit_of d))
    then some (u32 (base_of d + off))
    else none

module _ (m : Mem) (g : ℕ) (stands : Stands gdt g m) where
  byte_at : (sel i b : ℕ) → get_elem? gdt (sel + i) ≡ some b → m (g + sel + i) ≡ b
  byte_at sel i b e =
      ap m {x = g + sel + i} {y = g + (sel + i)} (omega arith) ∙ stands (sel + i) b e

  code_descriptor : descriptor m (g + code_seg) ≡ create_descriptor 0 0xFFFFF gdt_code_pl0
  unfolding create_descriptor
  code_descriptor = omega (
    arith,
    stands 8 _ refl,
    byte_at code_seg 1 _ refl,
    byte_at code_seg 2 _ refl,
    byte_at code_seg 3 _ refl,
    byte_at code_seg 4 _ refl,
    byte_at code_seg 5 _ refl,
    byte_at code_seg 6 _ refl,
    byte_at code_seg 7 _ refl,
  )

  data_descriptor : descriptor m (g + data_seg) ≡ create_descriptor 0 0xFFFFF gdt_data_pl0
  unfolding create_descriptor
  data_descriptor = omega (
    arith,
    stands 16 _ refl,
    byte_at data_seg 1 _ refl,
    byte_at data_seg 2 _ refl,
    byte_at data_seg 3 _ refl,
    byte_at data_seg 4 _ refl,
    byte_at data_seg 5 _ refl,
    byte_at data_seg 6 _ refl,
    byte_at data_seg 7 _ refl,
  )

  -- Where the table of gdt.asm stands in memory, the descriptors of the code and the data segment are
  -- those that gdt_tool.c packs for a whole segment of level 0, and through both every offset of 32
  -- bits is its own linear address.
  pub gdt-flat :
      (off : ℕ)
      → off < 2 ^ 32
      → (descriptor m (g + code_seg) ≡ create_descriptor 0 0xFFFFF gdt_code_pl0)
        × (descriptor m (g + data_seg) ≡ create_descriptor 0 0xFFFFF gdt_data_pl0)
        × (translate m g (8 * 3 - 1) code_seg off ≡ some off)
        × (translate m g (8 * 3 - 1) data_seg off ≡ some off)
  unfolding translate create_descriptor
  gdt-flat off h = (
    code_descriptor,
    data_descriptor,
    rw code_descriptor (ground arith),
    rw data_descriptor (ground arith),
  )
