-- ===== src/Interrupts/Timer/Sample.antt =====
-- A small interval timer that has the documented behaviour, for the tests.
use mal_os.Prelude.{ℕ, ◌+◌, ◌*◌, ◌<◌, ◌≡◌, refl, ◌==◌, if◌then◌else◌}
use mal_os.Kernel.Ports.{Ports}
use mal_os.Interrupts.Timer.Pit.{Expects, nothing, low, high, full_count, IsPit}

pub record Channel : Type 0 where
  pub state : Expects
  pub byte : ℕ
  pub reload : ℕ

abbrev pub written : ℕ → Expects → Channel → Channel
written v nothing d = d
written v low d = record d { state = high; byte = v }
written v high d = record d { state = nothing; reload = full_count (v * 256 + d.byte) }

abbrev pub channel_out : ℕ → ℕ → Channel → Channel
channel_out port v d =
    if port == 0x43
    then record d { state = low }
    else if port == 0x40
    then written v d.state d
    else d

abbrev pub pit_ports : Ports Channel
pit_ports = record {
  in8 = λ port d. (0, d);
  out8 = channel_out;
  in16 = λ port d. (0, d);
  out16 = λ port v d. d;
  in32 = λ port d. (0, d);
  out32 = λ port v d. d;
}

pub first_lem :
    (d : Channel) (v : ℕ)
    → d.state ≡ low
    → v < 256
    → let d' = channel_out 0x40 v d in (d'.state ≡ high) × (d'.byte ≡ v)
first_lem d v e h = rw e (refl, refl)

pub second_lem :
    (d : Channel) (v : ℕ)
    → d.state ≡ high
    → v < 256
    → let d' = channel_out 0x40 v d in
      (d'.state ≡ nothing) × (d'.reload ≡ full_count (v * 256 + d.byte))
second_lem d v e h = rw e (refl, refl)

abbrev pub pit_ports-IsPit : IsPit pit_ports
pit_ports-IsPit = record {
  expects = λ d. d.state;
  low_byte = λ d. d.byte;
  divisor = λ d. d.reload;
  command = λ d. refl;
  first = first_lem;
  second = second_lem;
}
