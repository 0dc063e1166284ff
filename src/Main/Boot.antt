-- ===== src/Main/Boot.antt =====
-- `kmain` up to the division.
use mal_os.Prelude.{
  List, ◌++◌, ap₂, ℕ, ◌+◌, ◌*◌, ◌^◌, ◌<◌, ◌≡◌, refl, ◌∙◌, ap, Bool, u8, u32, Option, some, [], map,
  arith,
}
use mal_os.Kernel.Ports.{Ports}
use mal_os.Kernel.State.{Kernel, divhandler}
use mal_os.Kernel.Tty.{terminal_initialize}
use mal_os.Kernel.Tty.Cursor.{cursor}
use mal_os.Kernel.Tty.Start.{terminal_initialize_lem, view-terminal_initialize}
use mal_os.Kernel.Tty.Screen.{type_text, view, blank}
use mal_os.Libc.Printf.{say}
use mal_os.Libc.Printf.Render.{render_literal}
use mal_os.Libc.Printf.Prints.{say-render}
use mal_os.Interrupts.Idt.{idt_load, set_idt_gates, set_idt_gate}
use mal_os.Interrupts.Isr.{
  isr_install, irq_install, irq_pic_remap, int_install, init_test, register_interrupt_handler,
  are_interrupts_enabled,
}
use mal_os.Interrupts.Isr.Install.{int_install_lem}
use mal_os.Interrupts.Timer.{init_timer}
use mal_os.Interrupts.Timer.Pit.{init_timer_lem}
use mal_os.Pci.Present.{lines}
use mal_os.Pci.{DeviceDescriptor, pci_explore}
use mal_os.Main.{sleep_on, show_tests, start_up, forcing_text}
use mal_os.Main.Board.{Runs-Ticks, IsBoard, IsTicking, IsTicking-Runs}
use mal_os.Main.Wait.{sleep_on-Waits}
use mal_os.Main.Steps.{
  test_lines, Goes, Goes-put_all, Goes-trans, show_tests-Goes, pci_explore-Goes,
}

module _ {Dev : Type 0} {hw : Ports Dev} {pass : Dev → Bool × Dev} (board : IsBoard hw pass) where
  int_install-tick :
      (isr irq : ℕ → ℕ) (idt_address : ℕ) (k : Kernel Dev)
      → (int_install hw isr irq idt_address k).tick ≡ k.tick
  unfolding int_install idt_load isr_install irq_install irq_pic_remap set_idt_gates set_idt_gate
  int_install-tick isr irq idt_address k = refl

  -- After the first two calls the timer is ticking.
  timer_on :
      (isr irq : ℕ → ℕ) (idt_address : ℕ) (k : Kernel Dev)
      → ((n : ℕ) → isr n < 2 ^ 32)
      → ((n : ℕ) → irq n < 2 ^ 32)
      → idt_address < 2 ^ 32
      → (k₁ : Kernel Dev) × (init_timer hw 50 (int_install hw isr irq idt_address k) ≡ some k₁)
        × IsTicking board k₁
        × (k₁.tick ≡ k.tick)
  unfolding are_interrupts_enabled
  timer_on isr irq idt_address k isrs irqs h =
      let k₀ = int_install hw isr irq idt_address k in
      let (_, _, _, enabled) = int_install_lem hw isr irq idt_address k isrs irqs h in
      let (k₁, e, _, rest) = init_timer_lem board.pit 50 k₀ (omega arith) in
      (
        k₁,
        e,
        record {
          handler = ap (λ z. z.interrupt_handlers 32) rest ∙ ground arith;
          enabled = ap are_interrupts_enabled rest ∙ enabled;
          frequency = ap (λ z. z.pit_frequency) rest;
        },
        ap (λ z. z.tick) rest ∙ int_install-tick isr irq idt_address k,
      )

  -- `detect_cpu` prints its text and returns.
  abbrev pub Detects : (Kernel Dev → Option (Kernel Dev)) → List ℕ → Type 0
  Detects detect cpu_text =
      (k : Kernel Dev)
      → cursor board.machine.crtc k < 2000
      → k.tick < 2 ^ 32
      → Goes board 0 cpu_text k (detect k)

  -- The terminal is set up and the handler for the division registered.
  ready : Kernel Dev → Kernel Dev
  ready k = init_test (terminal_initialize hw k)

  ready_lem :
      (k : Kernel Dev)
      → IsTicking board k
      → let k' = ready k in
        IsTicking board k'
        × (cursor board.machine.crtc k' < 2000)
        × (k'.tick ≡ k.tick)
        × (k'.t_color ≡ 0x1F)
        × (k'.interrupt_handlers 0 ≡ some divhandler)
        × (view board.machine.crtc k' ≡ blank 0x1F)
  unfolding ready init_test register_interrupt_handler are_interrupts_enabled
  ready_lem k on =
      let (at, _, rest) = terminal_initialize_lem board.machine.crtc k in
      (
        record {
          handler = ap (λ z. z.interrupt_handlers 32) rest ∙ on.handler;
          enabled = ap are_interrupts_enabled rest ∙ on.enabled;
          frequency = ap (λ z. z.pit_frequency) rest ∙ on.frequency;
        },
        omega (arith, at),
        ap (λ z. z.tick) rest,
        ap (λ z. z.t_color) rest,
        refl,
        view-terminal_initialize board.machine.crtc k,
      )

  -- The last line before the division.
  force-Goes :
      (k : Kernel Dev)
      → cursor board.machine.crtc k < 2000
      → k.tick < 2 ^ 32
      → Goes board 0 (map u8 forcing_text) k (say hw forcing_text [] k)
  force-Goes k on small = Goes-put_all board forcing_text k _ on small (
      say-render hw forcing_text [] k forcing_text (render_literal forcing_text [] (ground arith))
        (ground arith))

  -- What stands on the screen when `kmain` comes to the division.
  abbrev pub boot_text : List ℕ → List ℕ
  boot_text cpu_text =
      cpu_text ++ (test_lines 50 0 ++ (lines board.functions ++ map u8 forcing_text))

  -- How `kmain` comes to the division.
  pub record Starts (cpu_text : List ℕ) (k k₁ : Kernel Dev) : Type 0 where
    pub ticked : k₁.tick ≡ u32 (k.tick + 260)
    pub on : cursor board.machine.crtc k₁ < 2000
    pub handler : k₁.interrupt_handlers 0 ≡ some divhandler
    pub screen : view board.machine.crtc k₁ ≡ type_text 0x1F (boot_text cpu_text) (blank 0x1F)

  -- From the kernel `k₃` that is ready.
  Starts-last :
      (cpu_text : List ℕ) (k k₃ : Kernel Dev) (out : Option (Kernel Dev))
      → k₃.tick ≡ u32 (k.tick + 60)
      → k₃.interrupt_handlers 0 ≡ some divhandler
      → k₃.t_color ≡ 0x1F
      → view board.machine.crtc k₃ ≡ blank 0x1F
      → Goes board 200 (boot_text cpu_text) k₃ out
      → (k₁ : Kernel Dev) × (out ≡ some k₁) × Starts cpu_text k k₁
  Starts-last cpu_text k k₃ out ticked handler color clear (k₁, e, runs, later, on, typed) = (
    k₁,
    e,
    record {
      ticked = omega (arith, ticked, later);
      on = on;
      handler = ap (λ z. z.interrupt_handlers 0) runs ∙ handler;
      screen = typed ∙ ap₂ (λ c z. type_text c (boot_text cpu_text) z) color clear;
    },
  )

  -- The calls, one after the other.
  start_up_calls :
      (isr irq : ℕ → ℕ) (idt_address : ℕ) (detect : Kernel Dev → Option (Kernel Dev)) (fuel : ℕ)
      (k k₁ k₂ k₄ k₅ k₆ : Kernel Dev) (found : List DeviceDescriptor) (out : Option (Kernel Dev))
      → init_timer hw 50 (int_install hw isr irq idt_address k) ≡ some k₁
      → sleep_on hw pass fuel 3000 k₁ ≡ some k₂
      → detect (ready k₂) ≡ some k₄
      → show_tests hw pass fuel 50 0 k₄ ≡ some k₅
      → pci_explore hw k₅ ≡ some (found, k₆)
      → say hw forcing_text [] k₆ ≡ out
      → start_up hw pass isr irq idt_address detect fuel k ≡ out
  unfolding start_up ready
  start_up_calls isr irq idt_address detect fuel k k₁ k₂ k₄ k₅ k₆ found out e₁ e₂ e₄ e₅ e₆ e =
      rw (e₁, e₂, e₄, e₅, e₆) e

  pub start_up-Starts :
      (isr irq : ℕ → ℕ) (idt_address : ℕ) (detect : Kernel Dev → Option (Kernel Dev))
      (cpu_text : List ℕ) (fuel : ℕ) (k : Kernel Dev)
      → ((n : ℕ) → isr n < 2 ^ 32)
      → ((n : ℕ) → irq n < 2 ^ 32)
      → idt_address < 2 ^ 32
      → Detects detect cpu_text
      → k.tick < 2 ^ 32
      → 60 * board.period < fuel
      → (k₁ : Kernel Dev) × (start_up hw pass isr irq idt_address detect fuel k ≡ some k₁)
        × Starts cpu_text k k₁
  start_up-Starts isr irq idt_address detect cpu_text fuel k isrs irqs h detects small enough =
      let (k₁, e₁, on₁, t₁) = timer_on isr irq idt_address k isrs irqs h in
      let (k₂, e₂, r₂, t₂, _) =
        sleep_on-Waits board fuel 3000 k₁ (omega (arith, t₁)) (omega arith) on₁ (omega arith) in
      let k₃ = ready k₂ in
      let (on₃, c₃, t₃, color₃, handler₃, clear) =
        ready_lem k₂ (IsTicking-Runs board k₁ k₂ (Runs-Ticks k₁ k₂ r₂) on₁) in
      let g₄ = detects k₃ c₃ (omega (arith, t₂, t₃)) in
      let (k₄, e₄, r₄, t₄, c₄, _) = g₄ in
      let g₅ =
        show_tests-Goes board 50 0 fuel k₄ (omega arith) (omega (arith, t₄))
          (IsTicking-Runs board k₃ k₄ r₄ on₃) (omega arith) c₄ in
      let (k₅, e₅, r₅, t₅, c₅, _) = g₅ in
      let (k₆, e₆, r₆, t₆, c₆, typed₆) = pci_explore-Goes board k₅ c₅ (omega (arith, t₅)) in
      let g₆ : Goes board 0 (lines board.functions) k₅ (some k₆) = (k₆, refl, r₆, t₆, c₆, typed₆) in
      let g₇ = force-Goes k₆ c₆ (omega (arith, t₆)) in
      let g₆₇ = Goes-trans board 0 0 (lines board.functions) (map u8 forcing_text) k₅ _ _ g₆ g₇ in
      let g₅₇ = Goes-trans board 200 0 (test_lines 50 0) _ k₄ _ _ g₅ g₆₇ in
      let g₃₇ = Goes-trans board 0 200 cpu_text _ k₃ _ _ g₄ g₅₇ in
      let (k₇, e₇, starts) =
        Starts-last cpu_text k k₃ _ (omega (arith, t₁, t₂, t₃)) handler₃ color₃ clear g₃₇ in
      (
        k₇,
        start_up_calls isr irq idt_address detect fuel k k₁ k₂ k₄ k₅ k₆ board.functions (some k₇) e₁
            e₂ e₄ e₅ e₆ e₇,
        starts,
      )
