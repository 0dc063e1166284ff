-- ===== src/GdtTool/Tests.antt =====
-- The descriptors that the tool prints, and the theorem at one of them.
use mal_os.Prelude.{◌+◌, ◌*◌, ◌/◌, ◌%◌, ◌^◌, ◌≡◌, refl, arith, [], ◌∷◌}
use mal_os.GdtTool.{create_descriptor, main, gdt_code_pl3}
use mal_os.GdtTool.Fields.{create_descriptor_fields}

printed_descriptors :
    main
    ≡ 0 ∷ 0x00CF9A000000FFFF ∷ 0x00CF92000000FFFF ∷ 0x00CFFA000000FFFF ∷ 0x00CFF2000000FFFF ∷ []
unfolding main create_descriptor
printed_descriptors = refl

create_descriptor_fields_example :
    let d = create_descriptor 0x12345678 0xABCDE gdt_code_pl3 in
    (d / 2 ^ 56 * 2 ^ 24 + d / 2 ^ 16 % 2 ^ 24 ≡ 0x12345678)
    × (d / 2 ^ 48 % 2 ^ 4 * 2 ^ 16 + d % 2 ^ 16 ≡ 0xABCDE)
    × (d / 2 ^ 40 % 2 ^ 8 ≡ gdt_code_pl3 % 2 ^ 8)
    × (d / 2 ^ 52 % 2 ^ 4 ≡ gdt_code_pl3 / 2 ^ 12)
create_descriptor_fields_example =
    create_descriptor_fields 0x12345678 0xABCDE gdt_code_pl3 (omega arith) (omega arith)
      (omega arith)
