-- ===== src/Pci/Tests.antt =====
-- An identifier, and the search for devices on small machines.
use mal_os.Prelude.{ℕ, ◌^◌, ◌<◌, ◌≡◌, refl, ◌==◌, if◌then◌else◌, arith, ap, u8, none, [], ◌∷◌}
use mal_os.Kernel.Ports.{Ports}
use mal_os.Pci.{construct_identifier}
use mal_os.Kernel.State.{Kernel}
use mal_os.Kernel.Tty.Sample.{
  Crtc, crtc_in, crtc_out, full, u8-lt, write_high_lem, write_low_lem, read_high_lem, read_low_lem,
}
use mal_os.Pci.{pci_explore}
use mal_os.Pci.Present.{Config, descriptor, buses_present}
use mal_os.Pci.Machine.{IsMachine}
use mal_os.Pci.Sample.{bus_words, bus_words-lt}
use mal_os.Pci.Explore.{Found, pci_explore-Found}
use mal_os.Pci.Explore.Overrun.{pci_explore_overruns}
use mal_os.Pci.Identifier.{address}

the_identifier : construct_identifier 1 2 3 0x0E ≡ 0x8001130C
unfolding construct_identifier
the_identifier = refl

-- Machines with a CRT controller and a host bridge: one function is present, or too many are.
record Machine : Type 0 where
  crtc : Crtc
  latched : ℕ

-- Every double word reads the same.
abbrev crowded_words : ℕ → ℕ
crowded_words n = 0x12378086

crowded_words-lt : (n : ℕ) → crowded_words n < 2 ^ 32
crowded_words-lt n = omega arith

-- With the configuration space of an address word given.
module _ (words : ℕ → ℕ) where
  abbrev machine_ports : Ports Machine
  machine_ports = record {
    in8 = λ port d. let (v, crtc) = crtc_in port d.crtc in (v, record d { crtc = crtc });
    out8 = λ port v d. record d { crtc = crtc_out port v d.crtc };
    in16 = λ port d. (0, d);
    out16 = λ port v d. d;
    in32 = λ port d. (if port == 0xCFC then words d.latched else 0, d);
    out32 = λ port v d. if port == 0xCF8 then record d { latched = v } else d;
  }

  abbrev machine_ports-IsMachine : ((n : ℕ) → words n < 2 ^ 32) → IsMachine machine_ports
  machine_ports-IsMachine words_lt = record {
    crtc = record {
      index = λ d. d.crtc.index;
      high = λ d. u8 d.crtc.high;
      low = λ d. u8 d.crtc.low;
      high_lt = λ d. u8-lt d.crtc.high;
      low_lt = λ d. u8-lt d.crtc.low;
      select = λ d i h. (refl, refl, refl);
      write_high = λ d. write_high_lem d.crtc;
      write_low = λ d. write_low_lem d.crtc;
      read_high = λ d. read_high_lem d.crtc;
      read_low = λ d. read_low_lem d.crtc;
      read_keeps = λ d. (refl, refl);
    };
    bridge = record {
      config = λ d bus slot func reg. words (address bus slot func reg);
      latch = λ d. d.latched;
      config_lt = λ d bus slot func reg. words_lt (address bus slot func reg);
      select = λ d v h. (refl, refl);
      fetch = λ d bus slot func reg hb hs hf hr e. (ap words e, refl);
    };
    config_apart = record { select = λ d v. refl; write = λ d v. refl; read = λ d. refl };
    out_keeps = λ d v. (refl, refl);
    in_keeps = λ d. (refl, refl);
  }

abbrev machine_off : Machine
machine_off = record { crtc = full.dev; latched = 0 }

abbrev machine_on : Kernel Machine
machine_on = record {
  dev = machine_off;
  mem = full.mem;
  t_color = 0x1F;
  t_err_color = 0x4F;
  t_buff = 0xb8000;
  tick = 0;
  pit_frequency = 0;
  interrupt_handlers = λ n. none;
  idt = full.idt;
  idt_reg = full.idt_reg;
  idtr = full.idtr;
  eflags = 2;
}

abbrev on_the_bus : Config
on_the_bus bus slot func reg = bus_words (address bus slot func reg)

one_function : buses_present 8 on_the_bus 0 ≡ descriptor on_the_bus 0 1 0 ∷ []
one_function = refl

pci_explore-Found_example :
    Found
      (machine_ports-IsMachine bus_words bus_words-lt)
      machine_on
      on_the_bus
      (buses_present 8 on_the_bus 0)
      (pci_explore (machine_ports bus_words) machine_on)
pci_explore-Found_example =
    pci_explore-Found (machine_ports-IsMachine bus_words bus_words-lt) machine_on (omega arith)
      (omega arith)

pci_explore_overruns_example : pci_explore (machine_ports crowded_words) machine_on ≡ none
pci_explore_overruns_example =
    pci_explore_overruns (machine_ports-IsMachine crowded_words crowded_words-lt) machine_on
      (omega arith) (omega arith)
