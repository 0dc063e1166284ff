-- ===== src/Interrupts/Isr/Sample.antt =====
-- Two small 8259A controllers that have the documented behaviour, for the tests.
use mal_os.Prelude.{ℕ, ◌-◌, refl, ◌==◌, if◌then◌else◌}
use mal_os.Kernel.Ports.{Ports}
use mal_os.Interrupts.Isr.Pic.{Pic, ready, IsPics, start, datum}

pub record Pics : Type 0 where
  pub a : Pic
  pub b : Pic
  pub a_serves : ℕ
  pub b_serves : ℕ

abbrev pub pics_in : ℕ → Pics → ℕ × Pics
pics_in port d = (if port == 0x21 then d.a.mask else if port == 0xA1 then d.b.mask else 0, d)

abbrev pub pics_out : ℕ → ℕ → Pics → Pics
pics_out port v d =
    if port == 0x21
    then record d { a = datum d.a.phase v d.a }
    else if port == 0xA1
    then record d { b = datum d.b.phase v d.b }
    else if port == 0x20
    then if v == 0x20 then record d { a_serves = d.a_serves - 1 } else record d { a = start d.a }
    else if port == 0xA0
    then if v == 0x20 then record d { b_serves = d.b_serves - 1 } else record d { b = start d.b }
    else d

abbrev pub pic_ports : Ports Pics
pic_ports = record {
  in8 = pics_in;
  out8 = pics_out;
  in16 = λ port d. (0, d);
  out16 = λ port v d. d;
  in32 = λ port d. (0, d);
  out32 = λ port v d. d;
}

abbrev pub pic_ports-IsPics : IsPics pic_ports
pic_ports-IsPics = record {
  master = λ d. d.a;
  slave = λ d. d.b;
  master_serves = λ d. d.a_serves;
  slave_serves = λ d. d.b_serves;
  start_master = λ d. (refl, refl);
  start_slave = λ d. (refl, refl);
  datum_master = λ d v h. (refl, refl);
  datum_slave = λ d v h. (refl, refl);
  read_master = λ d e. (refl, refl, refl);
  read_slave = λ d e. (refl, refl, refl);
  eoi_master = λ d. (refl, refl, refl, refl);
  eoi_slave = λ d. (refl, refl, refl, refl);
}

-- As the BIOS leaves a controller.
abbrev pub pic_at : ℕ → Pic
pic_at vector = record { phase = ready; vector = vector; cascade = 4; mode = 1; mask = 0xB8 }
