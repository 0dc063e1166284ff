-- ===== src/Main/Sample.antt =====
-- A small board that has the documented behaviour, for the tests.
use mal_os.Prelude.{
  ◌^◌, none, some, [], ◌∷◌, ℕ, ◌+◌, ◌-◌, ◌%◌, ◌<◌, ◌≡◌, ◌≢◌, refl, Bool, true, false, ◌==◌,
  if◌then◌else◌, u8, arith, ap,
}
use mal_os.Kernel.Ports.{Ports}
use mal_os.Kernel.Tty.Sample.{
  Crtc, crtc_in, crtc_out, u8-lt, write_high_lem, write_low_lem, read_high_lem, read_low_lem,
}
use mal_os.Interrupts.Isr.Sample.{Pics, pics_in, pics_out}
use mal_os.Interrupts.Timer.Sample.{Channel, channel_out, first_lem, second_lem}
use mal_os.Pci.Identifier.{address}
use mal_os.Pci.Present.{Config, descriptor}
use mal_os.Pci.Sample.{bus_words, bus_words-lt}
use mal_os.Main.Board.{IsBoard, IsTicking}
use mal_os.Kernel.State.{Kernel, timer_callback}
use mal_os.Kernel.Tty.Sample.{full}
use mal_os.Interrupts.Isr.{are_interrupts_enabled}
use mal_os.Interrupts.Isr.Sample.{pic_at}
use mal_os.Interrupts.Timer.Pit.{nothing}

pub record Devices : Type 0 where
  pub crtc : Crtc
  pub latched : ℕ
  pub pics : Pics
  pub channel : Channel
  pub clock : ℕ

abbrev pub board_in : ℕ → Devices → ℕ × Devices
board_in port d = (if port == 0x3d5 then (crtc_in port d.crtc).0 else (pics_in port d.pics).0, d)

abbrev pub board_out : ℕ → ℕ → Devices → Devices
board_out port v d = record d {
  crtc = crtc_out port v d.crtc;
  pics = pics_out port v d.pics;
  channel = channel_out port v d.channel;
}

abbrev pub board_ports : Ports Devices
board_ports = record {
  in8 = board_in;
  out8 = board_out;
  in16 = λ port d. (0, d);
  out16 = λ port v d. d;
  in32 = λ port d. (if port == 0xCFC then bus_words d.latched else 0, d);
  out32 = λ port v d. if port == 0xCF8 then record d { latched = v } else d;
}

-- Every third moment the timer raises its request.
abbrev pub clock_pass : Devices → Bool × Devices
clock_pass d =
    if d.clock % 3 == 0
    then (true, record d { clock = 2; pics = record d.pics { a_serves = d.pics.a_serves + 1 } })
    else (false, record d { clock = d.clock - 1 })

pub clock_waits :
    (d : Devices)
    → d.clock % 3 ≢ 0
    → let (raised, d') = clock_pass d in
      (raised ≡ false) × (d'.clock % 3 + 1 ≡ d.clock % 3) × (d'.pics.a_serves ≡ d.pics.a_serves)
clock_waits d h =
    let e : (d.clock % 3 == 0) ≡ false = ground arith in rw e (refl, omega arith, refl)

pub clock_raises :
    (d : Devices)
    → d.clock % 3 ≡ 0
    → let (raised, d') = clock_pass d in (raised ≡ true) × (d'.pics.a_serves ≡ d.pics.a_serves + 1)
clock_raises d h = rw h (refl, refl)

pub clock_keeps :
    (d : Devices)
    → let d' = (clock_pass d).1 in
      (u8 d'.crtc.high ≡ u8 d.crtc.high) × (u8 d'.crtc.low ≡ u8 d.crtc.low)
clock_keeps d = ground arith

pub clock-lt : (d : Devices) → d.clock % 3 < 3
clock-lt d = omega arith

-- The configuration space of the bus.
abbrev pub on_the_bus : Config
on_the_bus bus slot func reg = bus_words (address bus slot func reg)

abbrev pub board : IsBoard board_ports clock_pass
board = record {
  machine = record {
    crtc = record {
      index = λ d. d.crtc.index;
      high = λ d. u8 d.crtc.high;
      low = λ d. u8 d.crtc.low;
      high_lt = λ d. u8-lt d.crtc.high;
      low_lt = λ d. u8-lt d.crtc.low;
      select = λ d i h. (refl, refl, refl);
      write_high = λ d. write_high_lem d.crtc;
      write_low = λ d. write_low_lem d.crtc;
      read_high = λ d. read_high_lem d.crtc;
      read_low = λ d. read_low_lem d.crtc;
      read_keeps = λ d. (refl, refl);
    };
    bridge = record {
      config = λ d bus slot func reg. bus_words (address bus slot func reg);
      latch = λ d. d.latched;
      config_lt = λ d bus slot func reg. bus_words-lt (address bus slot func reg);
      select = λ d v h. (refl, refl);
      fetch = λ d bus slot func reg hb hs hf hr e. (ap bus_words e, refl);
    };
    config_apart = record { select = λ d v. refl; write = λ d v. refl; read = λ d. refl };
    out_keeps = λ d v. (refl, refl);
    in_keeps = λ d. (refl, refl);
  };
  pics = record {
    master = λ d. d.pics.a;
    slave = λ d. d.pics.b;
    master_serves = λ d. d.pics.a_serves;
    slave_serves = λ d. d.pics.b_serves;
    start_master = λ d. (refl, refl);
    start_slave = λ d. (refl, refl);
    datum_master = λ d v h. (refl, refl);
    datum_slave = λ d v h. (refl, refl);
    read_master = λ d e. (refl, refl, refl);
    read_slave = λ d e. (refl, refl, refl);
    eoi_master = λ d. (refl, refl, refl, refl);
    eoi_slave = λ d. (refl, refl, refl, refl);
  };
  pit = record {
    expects = λ d. d.channel.state;
    low_byte = λ d. d.channel.byte;
    divisor = λ d. d.channel.reload;
    command = λ d. refl;
    first = λ d. first_lem d.channel;
    second = λ d. second_lem d.channel;
  };
  due = λ d. d.clock % 3;
  period = 3;
  due_lt = clock-lt;
  waits = clock_waits;
  raises = clock_raises;
  pass_keeps = clock_keeps;
  eoi_keeps = λ d. (refl, refl);
  functions = descriptor on_the_bus 0 1 0 ∷ [];
  functions_present = λ d. refl;
  few_functions = omega arith;
}

-- As the boot sector leaves it.
abbrev pub switched_on : Kernel Devices
switched_on = record {
  dev = record {
    crtc = full.dev;
    latched = 0;
    pics = record { a = pic_at 8; b = pic_at 0x70; a_serves = 0; b_serves = 0 };
    channel = record { state = nothing; byte = 0; reload = 0 };
    clock = 1;
  };
  mem = full.mem;
  t_color = 0;
  t_err_color = 0;
  t_buff = 0;
  tick = 0;
  pit_frequency = 0;
  interrupt_handlers = λ n. none;
  idt = full.idt;
  idt_reg = full.idt_reg;
  idtr = full.idtr;
  eflags = 2;
}

abbrev pub ticking : Kernel Devices
ticking = record switched_on {
  pit_frequency = 50;
  interrupt_handlers = λ n. if n == 32 then some timer_callback else none;
  eflags = 0x202;
  tick = 2 ^ 32 - 1;
}

pub ticking-IsTicking : IsTicking board ticking
unfolding are_interrupts_enabled
ticking-IsTicking = record { handler = refl; enabled = refl; frequency = refl }
