-- ===== src/Main.antt =====
-- BIOS/kernel/kernel.c, with the waits of timer.c in the kernel's state. The time between two reads of
-- `tick` is an argument: `pass` says whether the timer has raised its request, and what the devices are
-- then. Interrupts come while the kernel waits, not while it prints. `detect` stands for `detect_cpu`,
-- another project's code. `none` is undefined behaviour, or fuel that has run out.
pub mod Board
pub mod Wait
pub mod Trace
pub mod Interrupted
pub mod Steps
pub mod Boot
pub mod Forced
pub mod System
pub mod Sound
pub mod Sample
mod Tests
use mal_os.Prelude.{
  ℕ, zero, suc, ◌+◌, ◌/◌, Bool, true, false, ◌&&◌, ◌==◌, ltb, if◌then◌else◌, Option, none, some,
  List, [], ◌∷◌, codes, ◌>>=◌,
}
use mal_os.Kernel.Ports.{Ports}
use mal_os.Kernel.State.{Kernel}
use mal_os.Kernel.Tty.{terminal_initialize}
use mal_os.Libc.Printf.{int, say}
use mal_os.Interrupts.Isr.{
  Registers, Outcome, undefined, are_interrupts_enabled, irq_handler, isr_handler, int_install,
  init_test,
}
use mal_os.Interrupts.Timer.{elapsed, init_timer}
use mal_os.Pci.{pci_explore}

-- What the entry stub of the timer's request pushes, and that of the exception 0.
abbrev pub timer_request : Registers
timer_request = record { int_no = 32; err_code = 0 }

abbrev pub division_by_zero : Registers
division_by_zero = record { int_no = 0; err_code = 0 }

abbrev pub test_format : List ℕ
test_format = codes "test %d\n"

abbrev pub forcing_text : List ℕ
forcing_text = codes "\nForcing fault without registered handler ..."

module _ {Dev : Type 0} (hw : Ports Dev) (pass : Dev → Bool × Dev) where
  -- The time between two reads, with the interrupt that comes in it.
  unfoldable pub moment : Kernel Dev → Option (Kernel Dev)
  moment k =
      let (raised, d) = pass k.dev in
      let k₁ : Kernel Dev = record k { dev = d } in
      if raised && are_interrupts_enabled k then irq_handler hw timer_request k₁ else some k₁

  -- The loop of `sleep`.
  unfoldable pub spin : ℕ → ℕ → ℕ → Kernel Dev → Option (Kernel Dev)
  spin zero ref tick_goal k = none
  spin (suc fuel) ref tick_goal k = elim (ltb (elapsed k.tick ref) tick_goal) [
    | true ↦ moment k >>= λ k₁. spin fuel ref tick_goal k₁
    | false ↦ some k
  ]

  unfoldable pub sleep_on : ℕ → ℕ → Kernel Dev → Option (Kernel Dev)
  sleep_on fuel delay_ms k =
      let ref = k.tick in
      if k.pit_frequency == 0 then none else spin fuel ref (delay_ms / k.pit_frequency) k

  -- `for (int a=0; a<50; a++)`: the rounds that are left, and `a`.
  unfoldable pub show_tests : ℕ → ℕ → ℕ → Kernel Dev → Option (Kernel Dev)
  show_tests fuel zero a k = some k
  show_tests fuel (suc left) a k = do
    k₁ ← say hw test_format (int a ∷ []) k
    k₂ ← sleep_on fuel 200 k₁
    show_tests fuel left (a + 1) k₂

  -- Up to the division; `fuel` bounds the rounds of each wait.
  unfoldable pub start_up :
      (ℕ → ℕ)
      → (ℕ → ℕ)
      → ℕ
      → (Kernel Dev → Option (Kernel Dev))
      → ℕ
      → Kernel Dev
      → Option (Kernel Dev)
  start_up isr irq idt_address detect fuel k = do
    k₁ ← init_timer hw 50 (int_install hw isr irq idt_address k)
    k₂ ← sleep_on fuel 3000 k₁
    k₃ ← detect (init_test (terminal_initialize hw k₂))
    k₄ ← show_tests fuel 50 0 k₃
    (devices, k₅) ← pci_explore hw k₄
    say hw forcing_text [] k₅

  -- The division by zero raises the exception 0.
  unfoldable pub kmain :
      (ℕ → ℕ) → (ℕ → ℕ) → ℕ → (Kernel Dev → Option (Kernel Dev)) → ℕ → Kernel Dev → Outcome Dev
  kmain isr irq idt_address detect fuel k = elim (start_up isr irq idt_address detect fuel k) [
    | none ↦ undefined
    | some k₁ ↦ isr_handler hw division_by_zero k₁
  ]
