-- ===== src/Interrupts/Timer/Pit.antt =====
-- The interval timer 8253/8254, which is not part of the repository: the documented behaviour of its
-- channel 0 as laws, and what `init_timer` sets.
use mal_os.Prelude.{
  ltb, ℕ, ◌+◌, ◌*◌, ◌/◌, ◌%◌, ◌^◌, ◌≤◌, ◌<◌, ◌≡◌, refl, ◌==◌, false, some, arith, if◌then◌else◌, ap,
  ◌∙◌, u8, u16, bit_and, bit_and-ones,
}
use mal_os.Kernel.Ports.{Ports}
use mal_os.Kernel.State.{Kernel, timer_callback}
use native.Mathlib.Decide.{dec_lt}
use native.Mathlib.Nat.{div-lt_iff_lt-mul}
use mal_os.Interrupts.Isr.{register_interrupt_handler}
use mal_os.Interrupts.Timer.{init_timer, pic_internal_clk_hz}

-- What the next byte at the data port of channel 0 is.
pub data Expects : Type 0 where
  nothing low high : Expects

-- What a count stands for: 0 is the largest.
abbrev pub full_count : ℕ → ℕ
full_count n = if n == 0 then 2 ^ 16 else n

-- The command 0x36 makes channel 0 a square wave generator that takes its divisor as two bytes, the
-- low one first.
pub record IsPit {Dev : Type 0} (hw : Ports Dev) : Type 0 where
  pub expects : Dev → Expects
  pub low_byte : Dev → ℕ
  pub divisor : Dev → ℕ
  pub command : (d : Dev) → expects (hw.out8 0x43 0x36 d) ≡ low
  pub first :
      (d : Dev) (v : ℕ)
      → expects d ≡ low
      → v < 256
      → let d' = hw.out8 0x40 v d in (expects d' ≡ high) × (low_byte d' ≡ v)
  pub second :
      (d : Dev) (v : ℕ)
      → expects d ≡ high
      → v < 256
      → let d' = hw.out8 0x40 v d in
        (expects d' ≡ nothing) × (divisor d' ≡ full_count (v * 256 + low_byte d))

-- A divisor of two bytes is put together again from its bytes.
bytes_lem :
    (n : ℕ) → n < 2 ^ 16 → u8 (u8 (bit_and (n / 2 ^ 8) 0xFF)) * 256 + u8 (u8 (bit_and n 0xFF)) ≡ n
bytes_lem n h = omega (arith, bit_and-ones 8 (n / 2 ^ 8), bit_and-ones 8 n)

-- From 19 Hz on the divisor fits 16 bits.
short : (f : ℕ) → 19 ≤ f → pic_internal_clk_hz / f < 2 ^ 16
short f g = (div-lt_iff_lt-mul (omega arith)).1 (omega arith)

whole_from_19 :
    (f : ℕ)
    → pic_internal_clk_hz / f % 2 ^ 16
      ≡ (if ltb f 19 then pic_internal_clk_hz / f % 2 ^ 16 else pic_internal_clk_hz / f)
whole_from_19 f = elim (dec_lt f 19) [
  | yes h ↦ ground arith
  | no h ↦ ground (arith, short f (omega arith))
]

module _ {Dev : Type 0} {hw : Ports Dev} (pit : IsPit hw) where
  -- For a frequency that is not 0, `init_timer` returns: the channel is set to the two low bytes of
  -- 1193182 / frequency, which is all of it from 19 Hz on, and to 65536 if they are 0, as they are above
  -- 1193182 Hz; the frequency is noted, the timer's callback stands at vector 32, and nothing else changes but the devices.
  pub init_timer_lem :
      (frequency : ℕ) (k : Kernel Dev)
      → 0 < frequency
      → (k' : Kernel Dev) × (init_timer hw frequency k ≡ some k')
        × (pit.divisor k'.dev
            ≡ full_count (
                if ltb frequency 19
                then pic_internal_clk_hz / frequency % 2 ^ 16
                else pic_internal_clk_hz / frequency))
        × (k' ≡ record k {
          dev = k'.dev;
          pit_frequency = frequency;
          interrupt_handlers = λ i. if i == 32 then some timer_callback else k.interrupt_handlers i;
        })
  unfolding init_timer register_interrupt_handler
  init_timer_lem frequency k h =
      let n = u16 (pic_internal_clk_hz / frequency) in
      let l = u8 (u8 (bit_and n 0xFF)) in
      let hi = u8 (u8 (bit_and (n / 2 ^ 8) 0xFF)) in
      let some_frequency : (frequency == 0) ≡ false = ground arith in
      let d₁ = hw.out8 0x43 0x36 k.dev in
      let (e₁, low_lem) = pit.first d₁ l (pit.command k.dev) (omega arith) in
      let (e₂, set) = pit.second (hw.out8 0x40 l d₁) hi e₁ (omega arith) in
      let whole = bytes_lem n (omega arith) in
      let divides = set ∙ ap (λ v. full_count (hi * 256 + v)) low_lem ∙ ap full_count whole in
      (_, rw some_frequency refl, divides ∙ ap full_count (whole_from_19 frequency), refl)
