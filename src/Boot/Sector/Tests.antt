-- ===== src/Boot/Sector/Tests.antt =====
-- A small BIOS with a drive, and a boot from it.
use mal_os.Prelude.{
  ℕ, ◌+◌, ◌-◌, ◌*◌, ◌%◌, ◌≡◌, ◌≢◌, refl, ◌∙◌, ap, true, false, ◌==◌, leb, ltb, ◌&&◌, if◌then◌else◌,
  u8, List, [], ◌∷◌, ◌++◌, get_elem?, Option, none, some, codes, arith,
}
use mal_os.Libc.Memory.{Mem}
use mal_os.GdtTool.{create_descriptor, gdt_code_pl0, gdt_data_pl0}
use mal_os.Boot.Gdt.{gdt, code_seg, data_seg, Stands, descriptor, translate, gdt-flat}
use mal_os.Boot.Sector.{
  Bios, Labels, Real, Booting, enters, fails, kernel_offset, disk_error_msg, sector_count_error_msg,
  prints, endl, printh, hex2ascii, disk_load, load_kernel, error_traceback, boot,
}
use mal_os.Boot.Sector.Display.{IsStream, hex_text, read_hex}
use mal_os.Boot.Sector.Shows.{IsBios, Types, printh-Types}
use mal_os.Boot.Sector.Enter.{IsPlaced}
use mal_os.Boot.Sector.Boots.{ready, Fails, Enters, boot_lem}

record Pc : Type 0 where
  screen : List ℕ
  drive : ℕ → ℕ
  sectors : ℕ

abbrev copied : ℕ → ℕ → Pc → Mem → Mem
copied count address d m p =
    if leb address p && ltb p (address + count * 512) then d.drive (512 + (p - address)) else m p

-- A drive with fewer sectors is read as far as it goes; one that is not there is an error.
abbrev pc_bios : Bios Pc
pc_bios = record {
  teletype = λ c d. record d { screen = d.screen ++ c ∷ [] };
  read_sectors = λ count cylinder head sector drive address d m. (
    record {
      carry = d.sectors == 0;
      ah = if d.sectors == 0 then 0x80 else 0;
      al = if leb count d.sectors then count else d.sectors;
    },
    d,
    copied count address d m,
  );
}

pc_bios-IsBios : IsBios pc_bios
pc_bios-IsBios = record {
  shown = λ d. d.screen;
  disk = λ d n. d.drive;
  types = λ c d. (refl, refl);
  reads = λ count drive address d m. (refl, refl, λ fine all p. refl);
}

abbrev labels : Labels
labels = record {
  gdt_start = 0x7d00;
  begin_pm = 0x7c80;
  after_begin_pm = 0x7d60;
  after_kernel = 0x7c95;
  after_kmain = 0x1005;
  kmain = 0x1100;
}

abbrev byte_of : Option ℕ → ℕ
byte_of none = 0
byte_of (some b) = b

abbrev sector_mem : Mem
sector_mem p = byte_of (get_elem? gdt (p - 0x7d00))

abbrev started : ℕ → Real Pc
started sectors = record {
  bios = record { screen = []; drive = λ n. n % 251; sectors = sectors };
  mem = sector_mem;
  es = 0;
  boot_drive = 0;
  hex_stream = codes "0x0000";
}

stream : IsStream (codes "0x0000")
stream = (_, _, _, _, refl)

gdt-Stands : Stands gdt 0x7d00 sector_mem
gdt-Stands i b e =
    ap (λ n. byte_of (get_elem? gdt n)) {x = 0x7d00 + i - 0x7d00} {y = i} (omega arith)
    ∙ ap byte_of e

placed : IsPlaced labels
placed = record { from = omega arith; to = omega arith; back = omega arith }

gdt-flat_example :
    (descriptor sector_mem (0x7d00 + code_seg) ≡ create_descriptor 0 0xFFFFF gdt_code_pl0)
    × (descriptor sector_mem (0x7d00 + data_seg) ≡ create_descriptor 0 0xFFFFF gdt_data_pl0)
    × (translate sector_mem 0x7d00 (8 * 3 - 1) code_seg 0xFFFFFFFF ≡ some 0xFFFFFFFF)
    × (translate sector_mem 0x7d00 (8 * 3 - 1) data_seg 0xFFFFFFFF ≡ some 0xFFFFFFFF)
gdt-flat_example = gdt-flat sector_mem 0x7d00 gdt-Stands 0xFFFFFFFF (omega arith)

printh-Types_example :
    Types pc_bios-IsBios (hex_text 0x80AF) (started 40) (printh pc_bios 0x80AF (started 40))
    × (read_hex (hex_text 0x80AF) ≡ 0x80AF)
printh-Types_example = printh-Types pc_bios-IsBios 0x80AF (started 40) (omega arith) stream

the_digits : (printh pc_bios 0x80AF (started 40)).bios.screen ≡ codes "0x80AF"
unfolding printh hex2ascii prints
the_digits = refl

boot_lem_example :
    let r = started 40 in
    let k = ready pc_bios 0x80 r in
    let reply = (pc_bios.read_sectors 34 0 0 2 0x80 kernel_offset k.bios k.mem).0 in
    let out = boot pc_bios labels 0 0x80 r in
    (reply.carry ≡ true → Fails pc_bios-IsBios disk_error_msg (u8 reply.ah) 0x80 r out)
    × (reply.carry ≡ false
        → u8 reply.al ≢ 34
        → Fails pc_bios-IsBios sector_count_error_msg (u8 reply.ah) 0x80 r out)
    × (reply.carry ≡ false → u8 reply.al ≡ 34 → Enters pc_bios-IsBios labels 0x80 r out)
boot_lem_example =
    boot_lem pc_bios-IsBios labels 0 0x80 (started 40) (omega arith) refl stream placed gdt-Stands

-- What stands on the screen when there is no drive.
abbrev seen : Booting Pc → List ℕ
seen (fails r) = r.bios.screen
seen (enters p) = []

no_drive :
    seen (boot pc_bios labels 0 0x80 (started 0))
    ≡ codes
        "Running MBR in 16-bit real mode\n\rLoading kernel\n\rDisk read error\n\rError code: 0x0080  From disk: 0x0080"
unfolding boot load_kernel disk_load error_traceback printh hex2ascii prints endl
no_drive = refl
