-- ===== src/Main/Interrupted/Sleeps.antt =====
-- `sleep` on the processor, next to `sleep` of Main, and on a board.
use mal_os.Prelude.{
  ℕ, zero, suc, ◌+◌, ◌*◌, ◌/◌, ◌^◌, ◌<◌, ◌≡◌, refl, ◌∙◌, ap, sym, ◌⊎◌, inl, inr, Bool, ◌==◌, ltb,
  u32, Option, none, some, Bool-cases,
}
use mathlib.Core.Option.{some-injective}
use mal_os.Kernel.Ports.{Ports}
use mal_os.Kernel.State.{Kernel, timer_callback}
use mal_os.Kernel.Processor.{Machine}
use mal_os.Interrupts.Timer.{elapsed}
use mal_os.Interrupts.Stubs.{Stub}
use mal_os.Interrupts.Stubs.Entry.{IsInterruptible}
use mal_os.Interrupts.Stubs.Deliver.{IsLinked, IsInstalled}
use mal_os.Main.{spin, sleep_on}
use mal_os.Main.Board.{IsBoard, IsTicking, Runs, Runs-trans, Runs-Ticks}
use mal_os.Main.Wait.{sleep_on-Waits}
use mal_os.Main.Interrupted.{IsUndisturbed, machine_spin, machine_sleep}
use mal_os.Main.Interrupted.Follow.{
  IsFollowing, IsUndisturbed-trans, IsUndisturbed-dev, moment-IsFollowing,
}

module _ {Dev : Type 0} where
  -- Neither returns, or both do; then the kernels are the same but for the memory, in which only 17
  -- words below the stack pointer can differ from what the processor had.
  abbrev pub Agree : Machine Dev → Option (Machine Dev) → Option (Kernel Dev) → Type 0
  Agree m out_m out_k =
      ((out_m ≡ none) × (out_k ≡ none))
      ⊎ ((m' : Machine Dev) × (k' : Kernel Dev) × (out_m ≡ some m')
          × (out_k ≡ some k')
          × (m'.kernel ≡ record k' { mem = m'.kernel.mem })
          × IsUndisturbed m m')

  Agree-after :
      (m m₁ : Machine Dev) (out_m : Option (Machine Dev)) (out_k : Option (Kernel Dev))
      → IsUndisturbed m m₁
      → Agree m₁ out_m out_k
      → Agree m out_m out_k
  Agree-after m m₁ out_m out_k held (inl never) = inl never
  Agree-after m m₁ out_m out_k held (inr (m', k', e, e', same, held')) =
      inr (m', k', e, e', same, IsUndisturbed-trans m m₁ m' held held')

module _ {Dev : Type 0} (hw : Ports Dev) (pass : Dev → Bool × Dev)
    (scratch : Machine Dev → ℕ × ℕ × ℕ) (isr irq : ℕ → ℕ) (code : ℕ → Option Stub) where
  machine_spin-spin :
      (fuel ref goal : ℕ) (k : Kernel Dev) (m : Machine Dev)
      → IsLinked isr irq code
      → IsFollowing isr irq k m
      → Agree m (machine_spin hw pass scratch code fuel ref goal m) (spin hw pass fuel ref goal k)
  unfolding machine_spin spin
  machine_spin-spin zero ref goal k m linked now = inl (refl, refl)
  machine_spin-spin (suc fuel) ref goal k m linked now =
      let same_tick = ap (λ z. ltb (elapsed z.tick ref) goal) now.same in
      elim (Bool-cases (ltb (elapsed k.tick ref) goal)) [
        | inl more ↦
            let (k₁, m₁, e, e', held, next) =
              moment-IsFollowing hw pass scratch isr irq code k m linked now in
            rw (machine_spin, spin, same_tick, more, e, e')
              (Agree-after m m₁ _ _ held (machine_spin-spin fuel ref goal k₁ m₁ linked next))
        | inr done ↦
            rw (machine_spin, spin, same_tick, done)
              (inr (m, k, refl, refl, now.same, IsUndisturbed-dev m m.kernel.dev))
      ]

  -- With the stubs linked, the gates installed, room for 17 words on the stack and the timer's callback
  -- registered: `sleep` on the processor, where each interrupt of the timer goes through its gate and
  -- its stub, returns exactly when `sleep` in the kernel does, with the same fuel. Then the kernel is
  -- the same but for the memory; the registers and flags of the interrupted loop are as they were, but
  -- for es, fs and gs; and so is the memory outside 17 words below its stack pointer.
  pub machine_sleep-sleep_on :
      (fuel delay_ms : ℕ) (m : Machine Dev)
      → IsLinked isr irq code
      → IsInstalled isr irq m.kernel
      → IsInterruptible m
      → m.kernel.interrupt_handlers 32 ≡ some timer_callback
      → Agree m
          (machine_sleep hw pass scratch code fuel delay_ms m)
          (sleep_on hw pass fuel delay_ms m.kernel)
  unfolding machine_sleep sleep_on
  machine_sleep-sleep_on fuel delay_ms m linked installed fit timed =
      let now : IsFollowing isr irq m.kernel m = record {
        same = refl;
        fit = fit;
        installed = installed;
        timed = timed;
      } in
      elim (Bool-cases (m.kernel.pit_frequency == 0)) [
        | inl never ↦ rw never (inl (refl, refl))
        | inr counted ↦ rw counted (
            machine_spin-spin fuel m.kernel.tick (delay_ms / m.kernel.pit_frequency) m.kernel m
              linked now)
      ]

Agree-some :
    {Dev : Type 0}
    → (m : Machine Dev) (k' : Kernel Dev) (out_m : Option (Machine Dev))
      (out_k : Option (Kernel Dev))
    → out_k ≡ some k'
    → Agree m out_m out_k
    → (m' : Machine Dev) × (out_m ≡ some m')
      × (m'.kernel ≡ record k' { mem = m'.kernel.mem })
      × IsUndisturbed m m'
Agree-some m k' out_m out_k e (inl (_, never)) = absurd (cc)
Agree-some m k' out_m out_k e (inr (m', k₁, e', e₁, same, held)) =
    let at_mem : Kernel _ → Kernel _ = λ z. record z { mem = m'.kernel.mem } in
    (m', e', same ∙ ap at_mem (some-injective _ _ (sym e₁ ∙ e)), held)

module _ {Dev : Type 0} {hw : Ports Dev} {pass : Dev → Bool × Dev} (board : IsBoard hw pass) where
  -- On a board, with the stubs linked, the gates installed, room for 17 words on the stack, the timer's
  -- interrupts on and counted at 50 Hz, and fuel for more rounds than `period` for each tick: `sleep`
  -- on the processor, where each interrupt of the timer goes through its gate and its stub, returns,
  -- `delay_ms / 50` ticks later. The registers and flags of the interrupted loop are as they were, but
  -- for es, fs and gs; so is the memory outside 17 words below its stack pointer, and the rest of the kernel
  -- but for the devices.
  pub machine_sleep_lem :
      (scratch : Machine Dev → ℕ × ℕ × ℕ) (isr irq : ℕ → ℕ) (code : ℕ → Option Stub)
      (fuel delay_ms : ℕ) (m : Machine Dev)
      → IsLinked isr irq code
      → IsInstalled isr irq m.kernel
      → IsInterruptible m
      → IsTicking board m.kernel
      → m.kernel.tick < 2 ^ 32
      → delay_ms < 2 ^ 32
      → delay_ms / 50 * board.period < fuel
      → (m' : Machine Dev) × (machine_sleep hw pass scratch code fuel delay_ms m ≡ some m')
        × (m'.kernel.tick ≡ u32 (m.kernel.tick + delay_ms / 50))
        × IsUndisturbed m m'
        × Runs m.kernel m'.kernel
  machine_sleep_lem scratch isr irq code fuel delay_ms m linked installed fit on small delay
        enough =
      let (k', e, ticks, tick, held) =
        sleep_on-Waits board fuel delay_ms m.kernel small delay on enough in
      let (m', e', same, undisturbed) = Agree-some m k' _ _ e (
        machine_sleep-sleep_on hw pass scratch isr irq code fuel delay_ms m linked installed fit
          on.handler) in
      let devices : Kernel Dev → Kernel Dev =
        λ z. record k' { dev = z.dev; mem = m'.kernel.mem; tick = z.tick } in
      let runs =
        Runs-trans m.kernel k' m'.kernel (Runs-Ticks m.kernel k' ticks)
          (same ∙ ap devices (sym same)) in
      (m', e', ap (λ z. z.tick) same ∙ tick, undisturbed, runs)
