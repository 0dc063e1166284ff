-- ===== src/Interrupts/Stubs/Deliver.antt =====
-- An interrupt from the gate to the C function, and back.
use mal_os.Prelude.{
  ℕ, ◌+◌, ◌-◌, ◌*◌, ◌^◌, ◌≤◌, ◌<◌, ◌≡◌, refl, ◌∙◌, ap, subst, ◌⊎◌, inl, inr, leb, true, Option,
  none, some, Bool-cases, arith,
}
use mal_os.Kernel.Ports.{Ports}
use mal_os.Kernel.State.{Kernel, Gate, timer_callback}
use mal_os.Kernel.Processor.{Machine, push, drop, run, exec}
use mal_os.Interrupts.Idt.Gates.{IsGateTo}
use mal_os.Interrupts.Isr.{Registers, isr_handler, irq_handler, send_eoi, call_handler, int_install}
use mal_os.Interrupts.Isr.Handle.{ticked}
use mal_os.Interrupts.Isr.Install.{int_install_lem}
use mal_os.Interrupts.Stubs.{
  Stub, exception, request, resumes, entered, enter, save_context, ended, returned, return_from_irq,
  call_isr_handler, call_irq_handler, run_stub, run_found, run_code, interrupt,
}
use mal_os.Interrupts.Stubs.Entry.{
  IsInterruptible, IsError, error_code, arrived, isr_stub-arrived, irq_stub-arrived, arrived-Saved,
}
use mal_os.Interrupts.Stubs.Call.{registers_at-Saved, IsCalled, arrived-IsCalled}
use mal_os.Interrupts.Stubs.Return.{IsRestored, restore_context-IsRestored}

-- The linker put each stub at the address that the C code has for it.
pub record IsLinked (isr irq : ℕ → ℕ) (code : ℕ → Option Stub) : Type 0 where
  pub exceptions : (n : ℕ) → n < 32 → code (isr n) ≡ some (exception n)
  pub requests : (n : ℕ) → n < 16 → code (irq n) ≡ some (request n)

-- The gates lead there, and the processor uses the whole table.
pub record IsInstalled (isr irq : ℕ → ℕ) {Dev : Type 0} (k : Kernel Dev) : Type 0 where
  pub limit : k.idtr.limit + 1 ≡ 256 * 8
  pub exceptions : (n : ℕ) → n < 32 → IsGateTo (isr n) (k.idt n)
  pub requests : (n : ℕ) → n < 16 → IsGateTo (irq n) (k.idt (n + 32))

abbrev pub regs_of : ℕ → ℕ → Registers
regs_of n code = record { int_no = n; err_code = code }

error_code-lt : (n : ℕ) (error : Option ℕ) → IsError n error → error_code error < 2 ^ 32
error_code-lt n none right = omega arith
error_code-lt n (some code) (_, small) = small

module _ {Dev : Type 0} where
  enter_lem :
      (n handler : ℕ) (error : Option ℕ) (m : Machine Dev)
      → n < 256
      → m.kernel.idtr.limit + 1 ≡ 256 * 8
      → IsGateTo handler (m.kernel.idt n)
      → (enter n error m ≡ some (entered n error m)) × ((entered n error m).eip ≡ handler)
  unfolding enter entered
  enter_lem n handler error m h whole gate =
      let inside : leb (n * 8 + 7) m.kernel.idtr.limit ≡ true = ground (arith, whole) in
      (rw (inside, gate.present, gate.kind) refl, gate.offset)

module _ {Dev : Type 0} (hw : Ports Dev) (scratch : Machine Dev → ℕ × ℕ × ℕ) where
  interrupt-run_stub :
      (code : ℕ → Option Stub) (n handler : ℕ) (error : Option ℕ) (stub : Stub) (m : Machine Dev)
      → n < 256
      → m.kernel.idtr.limit + 1 ≡ 256 * 8
      → IsGateTo handler (m.kernel.idt n)
      → code handler ≡ some stub
      → interrupt hw scratch code n error m ≡ run_stub hw scratch stub (entered n error m)
  unfolding interrupt
  interrupt-run_stub code n handler error stub m h whole gate there =
      let (e, at) = enter_lem n handler error m h whole gate in
      let m₁ = entered n error m in
      ap (run_code hw scratch code) e ∙ ap (λ c. run_found hw scratch c m₁) (ap code at ∙ there)

  -- An exception 0 to 31 of the interrupted code, with an error code exactly where its stub expects
  -- one, and room for 17 words on the stack: `isr_handler` is called with its number and the error
  -- code, or 0, and what it comes to is how the interrupt ends. It is called with interrupts off, on
  -- the kernel as it was but for EFLAGS and the memory of those words.
  pub interrupt-exception :
      (isr irq : ℕ → ℕ) (code : ℕ → Option Stub) (n : ℕ) (error : Option ℕ) (m : Machine Dev)
      → n < 32
      → IsError n error
      → IsLinked isr irq code
      → IsInstalled isr irq m.kernel
      → IsInterruptible m
      → (k : Kernel Dev) × IsCalled m k
        × (interrupt hw scratch code n error m
            ≡ ended (isr_handler hw (regs_of n (error_code error)) k))
  unfolding run_stub call_isr_handler
  interrupt-exception isr irq code n error m h right linked installed fit =
      let m₁ = run save_context (arrived n (error_code error) m) in
      let saved =
        arrived-Saved n (error_code error) m (omega arith) (error_code-lt n error right) fit in
      (
        m₁.kernel,
        arrived-IsCalled n (error_code error) m saved,
        interrupt-run_stub code n (isr n) error (exception n) m (omega arith) installed.limit
              (installed.exceptions n h) (linked.exceptions n h)
            ∙ ap (λ z. call_isr_handler hw scratch (run save_context z))
                (isr_stub-arrived n error m (omega arith) right)
            ∙ ap (λ r. ended (isr_handler hw r m₁.kernel))
                (registers_at-Saved n (error_code error) m m₁ saved),
      )

  send_eoi-dev :
      (n : ℕ) (k k' : Kernel Dev) → k.dev ≡ k'.dev → (send_eoi hw n k).dev ≡ (send_eoi hw n k').dev
  unfolding send_eoi
  send_eoi-dev n k k' e = elim (Bool-cases (leb 40 n)) [
    | inl b ↦ rw (b, e) refl
    | inr b ↦ rw (b, e) refl
  ]

  -- A handler that prints nothing.
  irq_handler-quiet :
      (regs : Registers) (k : Kernel Dev)
      → regs.int_no < 256
      → (k.interrupt_handlers regs.int_no ≡ none)
        ⊎ (k.interrupt_handlers regs.int_no ≡ some timer_callback)
      → irq_handler hw regs k
        ≡ some (record k {
          dev = (send_eoi hw regs.int_no k).dev;
          tick = ticked (k.interrupt_handlers regs.int_no) k.tick;
        })
  unfolding irq_handler call_handler send_eoi
  irq_handler-quiet regs k h entry = ground arith

  -- An interrupt request whose entry in the table of handlers is empty or the timer's is transparent:
  -- the interrupted code goes on with its registers and flags as they were, but for es, fs and gs,
  -- which become ds; the memory is the same outside 17 words below its stack pointer; and the rest of the
  -- kernel is what `irq_handler` makes of it.
  pub interrupt-request :
      (isr irq : ℕ → ℕ) (code : ℕ → Option Stub) (n : ℕ) (m : Machine Dev)
      → n < 16
      → IsLinked isr irq code
      → IsInstalled isr irq m.kernel
      → IsInterruptible m
      → (m.kernel.interrupt_handlers (n + 32) ≡ none)
        ⊎ (m.kernel.interrupt_handlers (n + 32) ≡ some timer_callback)
      → (m' : Machine Dev) × (k' : Kernel Dev) × (interrupt hw scratch code (n + 32) none m
          ≡ resumes m')
        × (irq_handler hw (regs_of (n + 32) 0) m.kernel ≡ some k')
        × IsRestored m m'
        × (m'.kernel ≡ record k' { mem = m'.kernel.mem })
        × ((p : ℕ) → (m.esp ≤ p) ⊎ (p + 68 < m.esp) → m'.kernel.mem p ≡ m.kernel.mem p)
  unfolding run exec push drop arrived run_stub call_irq_handler
  interrupt-request isr irq code n m h linked installed fit entry =
      let m₁ = run save_context (arrived (n + 32) 0 m) in
      let saved = arrived-Saved (n + 32) 0 m (omega arith) (omega arith) fit in
      let regs = regs_of (n + 32) 0 in
      let k₁ = m₁.kernel in
      let handled = irq_handler-quiet regs k₁ (omega arith) entry in
      let k₂ : Kernel Dev = record k₁ {
        dev = (send_eoi hw (n + 32) k₁).dev;
        tick = ticked (k₁.interrupt_handlers (n + 32)) k₁.tick;
      } in
      let with_dev : Dev → Kernel Dev = λ d. record m.kernel {
        dev = d;
        mem = k₁.mem;
        tick = ticked (m.kernel.interrupt_handlers (n + 32)) m.kernel.tick;
      } in
      let called =
        ap (λ r. irq_handler hw r k₁) (registers_at-Saved (n + 32) 0 m m₁ saved) ∙ handled in
      let (restored, only) =
        restore_context-IsRestored (n + 32) 0 (m₁.esp + 4) (m.esp - 20) m.kernel.mem m
          (returned hw scratch k₂ m₁) fit saved in
      (
        _,
        _,
        interrupt-run_stub code (n + 32) (irq n) none (request n) m (omega arith) installed.limit
              (installed.requests n h) (linked.requests n h)
            ∙ ap (λ z. call_irq_handler hw scratch (run save_context z)) (irq_stub-arrived n m h)
            ∙ ap (return_from_irq hw scratch m₁) called,
        irq_handler-quiet regs m.kernel (omega arith) entry,
        restored,
        only ∙ ap with_dev (send_eoi-dev (n + 32) k₁ m.kernel refl),
        saved.outside,
      )

-- `int_install` lays the table out so.
pub int_install-IsInstalled :
    {Dev : Type 0} (hw : Ports Dev) (isr irq : ℕ → ℕ) (idt_address : ℕ) (k : Kernel Dev)
    → ((n : ℕ) → isr n < 2 ^ 32)
    → ((n : ℕ) → irq n < 2 ^ 32)
    → idt_address < 2 ^ 32
    → IsInstalled isr irq (int_install hw isr irq idt_address k)
int_install-IsInstalled hw isr irq idt_address k isrs irqs h =
    let (vectors, _, limit, _) = int_install_lem hw isr irq idt_address k isrs irqs h in
    record {
      limit = limit;
      exceptions = λ n low. elim (vectors n) [
        | inl (_, gate) ↦ gate
        | inr (inl (from, _, _)) ↦ absurd (omega arith)
        | inr (inr (from, _)) ↦ absurd (omega arith)
      ];
      requests = λ n low. elim (vectors (n + 32)) [
        | inl (before, _) ↦ absurd (omega arith)
        | inr (inl (_, _, gate)) ↦
            subst (λ i. IsGateTo (irq i) (installed_gate n)) {x = n + 32 - 32} (omega arith) gate
        | inr (inr (from, _)) ↦ absurd (omega arith)
      ];
    }
  where
    installed_gate : ℕ → Gate
    installed_gate n = (int_install hw isr irq idt_address k).idt (n + 32)
