-- ===== src/Kernel/Tty/Sample.antt =====
-- A small CRT controller that has the documented behaviour, and a terminal on it, for the tests.
use mal_os.Prelude.{ℕ, ◌%◌, ◌<◌, ◌≡◌, refl, ◌==◌, if◌then◌else◌, u8, arith, none, List, [], ◌∷◌}
use mal_os.Kernel.Ports.{Ports}
use mal_os.Kernel.State.{Kernel}
use mal_os.Kernel.Tty.Cursor.{IsCrtc}

pub record Crtc : Type 0 where
  pub index : ℕ
  pub high : ℕ
  pub low : ℕ

abbrev pub crtc_in : ℕ → Crtc → ℕ × Crtc
crtc_in port d =
    (if port == 0x3d5 then if d.index == 0x0E then u8 d.high else u8 d.low else 0xFF, d)

abbrev pub crtc_out : ℕ → ℕ → Crtc → Crtc
crtc_out port v d =
    if port == 0x3d4
    then record d { index = v }
    else if port == 0x3d5
    then if d.index == 0x0E then record d { high = v } else record d { low = v }
    else d

abbrev pub ports : Ports Crtc
ports = record {
  in8 = crtc_in;
  out8 = crtc_out;
  in16 = λ port d. (0, d);
  out16 = λ port v d. d;
  in32 = λ port d. (0, d);
  out32 = λ port v d. d;
}

pub write_high_lem :
    (d : Crtc) (v : ℕ)
    → d.index ≡ 0x0E
    → v < 256
    → (u8 (crtc_out 0x3d5 v d).high ≡ v) × (u8 (crtc_out 0x3d5 v d).low ≡ u8 d.low)
write_high_lem d v e h = ground arith

pub write_low_lem :
    (d : Crtc) (v : ℕ)
    → d.index ≡ 0x0F
    → v < 256
    → (u8 (crtc_out 0x3d5 v d).high ≡ u8 d.high) × (u8 (crtc_out 0x3d5 v d).low ≡ v)
write_low_lem d v e h = ground arith

pub read_high_lem : (d : Crtc) → d.index ≡ 0x0E → (crtc_in 0x3d5 d).0 ≡ u8 d.high
read_high_lem d e = ground arith

pub read_low_lem : (d : Crtc) → d.index ≡ 0x0F → (crtc_in 0x3d5 d).0 ≡ u8 d.low
read_low_lem d e = ground arith

pub u8-lt : (n : ℕ) → u8 n < 256
u8-lt n = omega arith

abbrev pub ports-IsCrtc : IsCrtc ports
ports-IsCrtc = record {
  index = λ d. d.index;
  high = λ d. u8 d.high;
  low = λ d. u8 d.low;
  high_lt = λ d. u8-lt d.high;
  low_lt = λ d. u8-lt d.low;
  select = λ d i h. (refl, refl, refl);
  write_high = write_high_lem;
  write_low = write_low_lem;
  read_high = read_high_lem;
  read_low = read_low_lem;
  read_keeps = λ d. (refl, refl);
}

-- A terminal with the cursor on the last cell.
abbrev pub full : Kernel Crtc
full = record {
  dev = record { index = 0; high = 7; low = 207 };
  mem = λ p. p % 256;
  t_color = 0x1F;
  t_err_color = 0x4F;
  t_buff = 0xb8000;
  tick = 0;
  pit_frequency = 0;
  interrupt_handlers = λ n. none;
  idt = λ n. record { base_lo = 0; sel = 0; always0 = 0; flags = 0; base_hi = 0 };
  idt_reg = record { limit = 0; base = 0 };
  idtr = record { limit = 0; base = 0 };
  eflags = 2;
}

abbrev pub hi : List ℕ
hi = b'h' ∷ b'i' ∷ []
