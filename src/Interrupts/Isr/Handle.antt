-- ===== src/Interrupts/Isr/Handle.antt =====
-- `isr_handler` and `irq_handler` on every kind of registered handler.
use mal_os.Prelude.{
  ℕ, ◌+◌, ◌<◌, ◌≡◌, refl, ap, ◌⊎◌, inl, inr, leb, ltb, true, if◌then◌else◌, arith, u8, u32, Option,
  none, some, List, [], ◌∷◌, map, codes,
}
use mal_os.Kernel.Ports.{Ports}
use mal_os.Kernel.State.{Kernel, Handler, timer_callback, divhandler, page_fault}
use mal_os.Kernel.Vga.{white, blue, red, black}
use mal_os.Kernel.Tty.{terminal_setcolor}
use mal_os.Kernel.Tty.Cursor.{IsCrtc, cursor}
use mal_os.Kernel.Tty.Text.{Writes, Writes-screen_only}
use mal_os.Libc.Itoa.RoundTrip.{IsNotation}
use mal_os.Libc.Printf.{int, str}
use mal_os.Libc.Printf.Writes.{printf-Writes}
use mal_os.Interrupts.Isr.{
  Registers, Outcome, halted, undefined, exception_messages, panic_text, received_format,
  call_handler, dispatch, isr_handler, send_eoi, irq_handler,
}
use mal_os.Interrupts.Isr.Messages.{
  message_short, received, received-render, panic_text-render, caught-render,
}
use mal_os.Interrupts.Isr.Pic.{IsPics, send_eoi_lem}

module _ {Dev : Type 0} {hw : Ports Dev} (crtc : IsCrtc hw) where
  -- What follows the line about the exception, for each entry of the table: without a handler the
  -- panic line and a stop; with one what the handler does, white on blue for what comes, and a stop.
  abbrev pub Handled : Option Handler → Kernel Dev → Outcome Dev → Type 0
  Handled none k out = (k' : Kernel Dev) × (out ≡ halted k') × Writes crtc panic_text k k'
  Handled (some timer_callback) k out =
      out ≡ halted (terminal_setcolor hw white blue (record k { tick = u32 (k.tick + 1) }))
  Handled (some divhandler) k out =
      (k' : Kernel Dev) × (out ≡ halted (terminal_setcolor hw white blue k'))
      × Writes crtc (codes "caught!") k k'
  Handled (some page_fault) k out = out ≡ undefined

  dispatch-Handled :
      (entry : Option Handler) (regs : Registers) (k : Kernel Dev)
      → cursor crtc k < 2000
      → k.interrupt_handlers regs.int_no ≡ entry
      → Handled entry k (dispatch hw regs k)
  unfolding dispatch call_handler
  dispatch-Handled none regs k h e =
      let (k', printed, writes, on) =
        printf-Writes crtc panic_text [] k panic_text h panic_text-render (ground arith) in
      (k', rw (dispatch, e, printed) refl, writes)
  dispatch-Handled (some timer_callback) regs k h e = rw (dispatch, e) refl
  dispatch-Handled (some divhandler) regs k h e =
      let (k', printed, writes, on) =
        printf-Writes crtc (codes "caught!") [] k (codes "caught!") h caught-render
          (ground arith) in
      (k', rw (dispatch, e, printed) refl, writes)
  dispatch-Handled (some page_fault) regs k h e = rw (dispatch, e) refl

  -- For each of the 32 exceptions, with the cursor on the screen: `isr_handler` writes, red on black,
  -- a line with the exception's number in hexadecimal and its message, and then does what the table
  -- of handlers says.
  pub isr_handler-Handled :
      (regs : Registers) (k : Kernel Dev)
      → regs.int_no < 32
      → cursor crtc k < 2000
      → (message ds : List ℕ) × (k' : Kernel Dev) × (exception_messages regs.int_no ≡ some message)
        × IsNotation 16 8 regs.int_no ds
        × Writes crtc (map u8 (received ds message)) (terminal_setcolor hw red black k) k'
        × Handled (k.interrupt_handlers regs.int_no) k' (isr_handler hw regs k)
  unfolding isr_handler terminal_setcolor
  isr_handler-Handled regs k h on =
      let (message, found, short) = message_short regs.int_no h in
      let (ds, notation, rendered, total) = received-render regs.int_no message (omega arith) in
      let k₁ = terminal_setcolor hw red black k in
      let (k', printed, writes, on') =
        printf-Writes crtc received_format (int regs.int_no ∷ str message ∷ []) k₁
          (received ds message) on rendered (omega arith) in
      let entry : k'.interrupt_handlers regs.int_no ≡ k.interrupt_handlers regs.int_no =
        ap (λ z. z.interrupt_handlers regs.int_no)
          (Writes-screen_only crtc (map u8 (received ds message)) k₁ k' writes) in
      (
        message,
        ds,
        k',
        found,
        notation,
        writes,
        rw (isr_handler, found, printed)
            (dispatch-Handled (k.interrupt_handlers regs.int_no) regs k' on' entry),
      )

-- The tick after an interrupt with that entry in the table.
abbrev pub ticked : Option Handler → ℕ → ℕ
ticked (some timer_callback) t = u32 (t + 1)
ticked _ t = t

abbrev tick_once : {Dev : Type 0} → Kernel Dev → Kernel Dev
tick_once k = record k { tick = u32 (k.tick + 1) }

module _ {Dev : Type 0} {hw : Ports Dev} (pics : IsPics hw) where
  -- An interrupt request whose entry in the table is empty or the timer's: `irq_handler` returns, the
  -- controllers hold one request less, as many as before it came, the timer's callback counts a
  -- tick, and nothing else changes but the devices.
  pub irq_handler_lem :
      (regs : Registers) (m s : ℕ) (k : Kernel Dev)
      → regs.int_no < 256
      → (k.interrupt_handlers regs.int_no ≡ none)
        ⊎ (k.interrupt_handlers regs.int_no ≡ some timer_callback)
      → pics.master_serves k.dev ≡ m + 1
      → pics.slave_serves k.dev ≡ (if leb 40 regs.int_no then s + 1 else s)
      → (k' : Kernel Dev) × (irq_handler hw regs k ≡ some k')
        × (pics.master_serves k'.dev ≡ m)
        × (pics.slave_serves k'.dev ≡ s)
        × (k' ≡ record k { dev = k'.dev; tick = ticked (k.interrupt_handlers regs.int_no) k.tick })
  unfolding irq_handler call_handler
  irq_handler_lem regs m s k h entry hm hs =
      let k₁ = send_eoi hw regs.int_no k in
      let (em, es, only) = send_eoi_lem pics regs.int_no m s k hm hs in
      let inside : ltb regs.int_no 256 ≡ true = ground arith in
      let same = ap (λ z. z.interrupt_handlers regs.int_no) only in
      elim entry [
        | inl e ↦ (k₁, rw (irq_handler, inside, same, e) refl, em, es, rw e only)
        | inr e ↦
            let k₂ : Kernel Dev = tick_once k₁ in
            (k₂, rw (irq_handler, inside, same, e) refl, em, es, rw e (ap tick_once only))
      ]
