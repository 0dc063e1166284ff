-- ===== src/Main/Forced.antt =====
-- `kmain` to its end: the division, and the handler that is registered for it.
use mal_os.Prelude.{
  ℕ, ◌+◌, ◌*◌, ◌^◌, ◌<◌, ◌≡◌, ◌∙◌, ap, ap₂, sym, subst, Bool, u8, u32, Option, some, List, ◌++◌,
  map, codes, arith,
}
use mathlib.Core.Option.{some-injective}
use mal_os.Kernel.Ports.{Ports}
use mal_os.Kernel.State.{Kernel, divhandler}
use mal_os.Kernel.Vga.{white, blue, red, black, vga_entry_color}
use mal_os.Kernel.Tty.{terminal_setcolor}
use mal_os.Kernel.Tty.Cursor.{cursor}
use mal_os.Kernel.Tty.Text.{Writes, Writes-screen_only, Writes-on_screen}
use mal_os.Kernel.Tty.Screen.{blank, type_text, type_text-append, view, view-Writes}
use mal_os.Libc.Itoa.RoundTrip.{IsNotation}
use mal_os.Interrupts.Isr.{halted, isr_handler}
use mal_os.Interrupts.Isr.Messages.{received}
use mal_os.Interrupts.Isr.Handle.{Handled, isr_handler-Handled}
use mal_os.Main.{kmain, forcing_text, division_by_zero}
use mal_os.Main.Board.{IsBoard}
use mal_os.Pci.Present.{lines}
use mal_os.Main.Steps.{test_lines}
use mal_os.Main.Boot.{Detects, start_up-Starts}

module _ {Dev : Type 0} {hw : Ports Dev} {pass : Dev → Bool × Dev} (board : IsBoard hw pass) where
  -- The exception at the end: the message, and what the registered handler prints.
  divided_lem :
      (k : Kernel Dev)
      → cursor board.machine.crtc k < 2000
      → k.interrupt_handlers 0 ≡ some divhandler
      → (k' : Kernel Dev) × (ds : List ℕ) × (isr_handler hw division_by_zero k ≡ halted k')
        × (k'.tick ≡ k.tick)
        × IsNotation 16 8 0 ds
        × (view board.machine.crtc k'
            ≡ type_text 0x04
                (map u8 (received ds (codes "Division by Zero")) ++ codes "caught!")
                (view board.machine.crtc k))
  unfolding terminal_setcolor vga_entry_color
  divided_lem k on entry =
      let (message, ds, k₁, found, notation, writes, handled) =
        isr_handler-Handled board.machine.crtc division_by_zero k (omega arith) on in
      let crtc = board.machine.crtc in
      let said : List ℕ = map u8 (received ds (codes "Division by Zero")) in
      let kᵣ = terminal_setcolor hw red black k in
      let same : message ≡ codes "Division by Zero" =
        sym (some-injective (codes "Division by Zero") message found) in
      let writes : Writes crtc said kᵣ k₁ =
        subst (λ m. Writes crtc (map u8 (received ds m)) kᵣ k₁) same writes in
      let (k₂, e, caught) =
        subst (λ h. Handled crtc h k₁ (isr_handler hw division_by_zero k)) entry handled in
      let on₁ = Writes-on_screen crtc said kᵣ k₁ on writes in
      let rest₁ = Writes-screen_only crtc said kᵣ k₁ writes in
      let rest₂ = Writes-screen_only crtc (codes "caught!") k₁ k₂ caught in
      (
        terminal_setcolor hw white blue k₂,
        ds,
        e,
        ap (λ z. z.tick) rest₂ ∙ ap (λ z. z.tick) rest₁,
        notation,
        view-Writes crtc (codes "caught!") k₁ k₂ on₁ caught
            ∙ ap₂ (λ c z. type_text c (codes "caught!") z) (ap (λ z. z.t_color) rest₁)
                (view-Writes crtc said kᵣ k₁ on writes)
            ∙ sym (type_text-append 0x04 said (codes "caught!") (view crtc k)),
      )

  -- On a board as laid down, with entry stubs and the table at 32-bit addresses, a `detect_cpu` that
  -- only prints its text, and fuel for 60 times `period` rounds of each wait, `kmain` comes to its end:
  -- it stops in the handler of the division by zero, with the tick grown by 260, 60 for the first wait
  -- and 4 for each test line. The screen is then, whatever it was before, a blank one on which have been
  -- typed, in white on blue, the text of `detect_cpu`, the 50 test lines, a line for each function on
  -- the buses and the line that announces the fault; and behind them, in red on black, the line about
  -- the exception, whose number `ds` is 0 in base 16, and what the registered handler prints.
  pub kmain_lem :
      (isr irq : ℕ → ℕ) (idt_address : ℕ) (detect : Kernel Dev → Option (Kernel Dev))
      (cpu_text : List ℕ) (fuel : ℕ) (k : Kernel Dev)
      → ((n : ℕ) → isr n < 2 ^ 32)
      → ((n : ℕ) → irq n < 2 ^ 32)
      → idt_address < 2 ^ 32
      → Detects board detect cpu_text
      → k.tick < 2 ^ 32
      → 60 * board.period < fuel
      → (k' : Kernel Dev) × (ds : List ℕ) × (kmain hw pass isr irq idt_address detect fuel k
          ≡ halted k')
        × (k'.tick ≡ u32 (k.tick + 260))
        × IsNotation 16 8 0 ds
        × (view board.machine.crtc k'
            ≡ type_text 0x04 (map u8 (received ds (codes "Division by Zero")) ++ codes "caught!") (
                type_text 0x1F
                  (cpu_text ++ (test_lines 50 0 ++ (lines board.functions ++ map u8 forcing_text)))
                  (blank 0x1F)))
  unfolding kmain
  kmain_lem isr irq idt_address detect cpu_text fuel k isrs irqs h detects small enough =
      let (k₁, e, starts) =
        start_up-Starts board isr irq idt_address detect cpu_text fuel k isrs irqs h detects small
          enough in
      let (k', ds, halts, ticked, notation, screen) = divided_lem k₁ starts.on starts.handler in
      let text : List ℕ = map u8 (received ds (codes "Division by Zero")) ++ codes "caught!" in
      (
        k',
        ds,
        rw (kmain, e) halts,
        ticked ∙ starts.ticked,
        notation,
        screen ∙ ap (type_text 0x04 text) starts.screen,
      )
