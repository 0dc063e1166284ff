-- ===== src/Interrupts/Timer.antt =====
-- BIOS/kernel/timer.c. `sleep` waits for another thread of control, the timer's interrupts: what it
-- sees is the value of `tick` at each of its reads, `ticks t` at the read `t`. The initial read of
-- `tick` is its argument `ref`. `none` is a division by zero, or fuel that has run out.
pub mod Sleep
pub mod Pit
pub mod Sample
mod Tests
use mal_os.Prelude.{
  ℕ, zero, suc, ◌+◌, ◌-◌, ◌/◌, ◌^◌, ◌==◌, ltb, if◌then◌else◌, bit_and, u8, u16, u32, ◌>>◌, Option,
  none, some,
}
use mal_os.Kernel.Ports.{Ports}
use mal_os.Kernel.State.{Kernel, timer_callback, outb}
use mal_os.Interrupts.Isr.{register_interrupt_handler}

abbrev pub reg_pit_ctrl : ℕ
reg_pit_ctrl = 0x43

abbrev pub reg_pit_c0_data : ℕ
reg_pit_c0_data = 0x40

abbrev pub pic_internal_clk_hz : ℕ
pic_internal_clk_hz = 1193182

-- `tick - ref` on `uint32_t`, from numbers below 2^32.
abbrev pub elapsed : ℕ → ℕ → ℕ
elapsed tick ref = u32 (tick + 2 ^ 32 - ref)

-- The empty loop of `sleep`. The result is the number of the read at which it ends.
unfoldable pub wait : ℕ → ℕ → ℕ → ℕ → (ℕ → ℕ) → Option ℕ
wait zero t ref tick_goal ticks = none
wait (suc fuel) t ref tick_goal ticks =
    let rest = wait fuel (t + 1) ref tick_goal ticks in
    if ltb (elapsed (ticks t) ref) tick_goal then rest else some t

unfoldable pub sleep : ℕ → ℕ → ℕ → ℕ → (ℕ → ℕ) → Option ℕ
sleep fuel pit_frequency delay_ms ref ticks =
    if pit_frequency == 0 then none else wait fuel 0 ref (delay_ms / pit_frequency) ticks

module _ {Dev : Type 0} (hw : Ports Dev) where
  unfoldable pub init_timer : ℕ → Kernel Dev → Option (Kernel Dev)
  init_timer frequency k =
      let k₁ : Kernel Dev = record k { pit_frequency = frequency } in
      let k₂ = register_interrupt_handler 32 timer_callback k₁ in
      let divisor = u16 (pic_internal_clk_hz / frequency) in
      let l = u8 (bit_and divisor 0xFF) in
      let h = u8 (bit_and (divisor >> 8) 0xFF) in
      if frequency == 0
      then none
      else some
          (outb hw reg_pit_c0_data h (outb hw reg_pit_c0_data l (outb hw reg_pit_ctrl 0x36 k₂)))
