-- ===== src/Main/Interrupted.antt =====
-- `sleep` of BIOS/kernel/timer.c on the processor: the timer's interrupt comes through its gate and its
-- stub in BIOS/kernel/interrupt.asm, between two reads of `tick`. What the compiled loop keeps in
-- registers is whatever stands there.
pub mod Follow
pub mod Sleeps
mod Tests
use mal_os.Prelude.{
  ℕ, zero, suc, ◌+◌, ◌/◌, ◌^◌, ◌≤◌, ◌<◌, ◌≡◌, refl, ◌∙◌, ap, sym, subst, ◌⊎◌, inl, inr, Bool, true,
  false, ◌&&◌, ◌==◌, ltb, if◌then◌else◌, Option, none, some, ◌>>=◌, Bool-cases, arith,
}
use mal_os.Libc.Memory.{Mem}
use mal_os.Kernel.Ports.{Ports}
use mal_os.Kernel.State.{Kernel, timer_callback}
use mal_os.Kernel.Processor.{Machine}
use mal_os.Interrupts.Isr.{are_interrupts_enabled, irq_handler}
use mal_os.Interrupts.Timer.{elapsed}
use mal_os.Interrupts.Stubs.{Stub, Ending, resumes, stops, crashes, interrupt}
use mal_os.Interrupts.Stubs.Entry.{IsInterruptible}
use mal_os.Interrupts.Stubs.Return.{IsRestored}
use mal_os.Interrupts.Stubs.Deliver.{IsLinked, IsInstalled, regs_of, interrupt-request}
use mal_os.Main.{timer_request, moment, spin, sleep_on}

-- The interrupted code goes on.
abbrev pub resumed : {Dev : Type 0} → Ending Dev → Option (Machine Dev)
resumed (resumes m) = some m
resumed (stops k) = none
resumed crashes = none

module _ {Dev : Type 0} where
  -- Registers and flags are as before, but for es, fs and gs, and so is the memory outside 17 words
  -- below the stack pointer.
  pub record IsUndisturbed (m m' : Machine Dev) : Type 0 where
    pub eax : m'.eax ≡ m.eax
    pub ecx : m'.ecx ≡ m.ecx
    pub edx : m'.edx ≡ m.edx
    pub ebx : m'.ebx ≡ m.ebx
    pub esp : m'.esp ≡ m.esp
    pub ebp : m'.ebp ≡ m.ebp
    pub esi : m'.esi ≡ m.esi
    pub edi : m'.edi ≡ m.edi
    pub eip : m'.eip ≡ m.eip
    pub cs : m'.cs ≡ m.cs
    pub ds : m'.ds ≡ m.ds
    pub eflags : m'.kernel.eflags ≡ m.kernel.eflags
    pub outside : (p : ℕ) → (m.esp ≤ p) ⊎ (p + 68 < m.esp) → m'.kernel.mem p ≡ m.kernel.mem p

module _ {Dev : Type 0} (hw : Ports Dev) (pass : Dev → Bool × Dev)
    (scratch : Machine Dev → ℕ × ℕ × ℕ) (code : ℕ → Option Stub) where
  -- The time between two reads.
  unfoldable pub machine_moment : Machine Dev → Ending Dev
  machine_moment m =
      let (raised, d) = pass m.kernel.dev in
      let m₁ : Machine Dev = record m { kernel = record m.kernel { dev = d } } in
      if raised && are_interrupts_enabled m.kernel
      then interrupt hw scratch code 32 none m₁
      else resumes m₁

  -- The loop.
  unfoldable pub machine_spin : ℕ → ℕ → ℕ → Machine Dev → Option (Machine Dev)
  machine_spin zero ref tick_goal m = none
  machine_spin (suc fuel) ref tick_goal m = elim (ltb (elapsed m.kernel.tick ref) tick_goal) [
    | true ↦ resumed (machine_moment m) >>= λ m₁. machine_spin fuel ref tick_goal m₁
    | false ↦ some m
  ]

  unfoldable pub machine_sleep : ℕ → ℕ → Machine Dev → Option (Machine Dev)
  machine_sleep fuel delay_ms m =
      let ref = m.kernel.tick in
      if m.kernel.pit_frequency == 0
      then none
      else machine_spin fuel ref (delay_ms / m.kernel.pit_frequency) m
