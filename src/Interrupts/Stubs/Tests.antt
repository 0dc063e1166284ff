-- ===== src/Interrupts/Stubs/Tests.antt =====
-- Interrupts of a small machine, after `int_install`.
use mal_os.Prelude.{
  ℕ, ◌+◌, ◌^◌, ◌≤◌, ◌<◌, ◌≡◌, refl, ◌⊎◌, inr, ◌==◌, if◌then◌else◌, List, [], ◌∷◌, none, some, arith,
}
use mal_os.Kernel.Ports.{Ports}
use mal_os.Kernel.State.{Kernel, timer_callback}
use mal_os.Interrupts.Idt.{gate, idt_load, set_idt_gate, set_idt_gates}
use mal_os.Interrupts.Isr.{
  isr_handler, irq_handler, send_eoi, call_handler, isr_install, irq_install, irq_pic_remap,
  int_install,
}
use mal_os.Kernel.Processor.{Machine, load_double, store_double, push, drop, exec, run}
use mal_os.Interrupts.Stubs.{
  Ending, resumes, ended, interrupt, enter, entered, run_stub, call_irq_handler,
}
use mal_os.Interrupts.Stubs.Sample.{stub, stub-lt, code_at, linked}
use mal_os.Interrupts.Stubs.Entry.{IsInterruptible}
use mal_os.Interrupts.Stubs.Call.{IsCalled}
use mal_os.Interrupts.Stubs.Return.{IsRestored}
use mal_os.Interrupts.Stubs.Deliver.{
  IsInstalled, regs_of, interrupt-exception, interrupt-request, int_install-IsInstalled,
}

-- Ports with nothing behind them.
abbrev no_ports : Ports Unit
no_ports = record {
  in8 = λ port d. (0, d);
  out8 = λ port v d. d;
  in16 = λ port d. (0, d);
  out16 = λ port v d. d;
  in32 = λ port d. (0, d);
  out32 = λ port v d. d;
}

abbrev booted : Kernel Unit
booted = record {
  dev = tt;
  mem = λ p. 0;
  t_color = 0x1F;
  t_err_color = 0x4F;
  t_buff = 0xb8000;
  tick = 41;
  pit_frequency = 50;
  interrupt_handlers = λ n. if n == 32 then some timer_callback else none;
  idt = λ n. gate 0;
  idt_reg = record { limit = 0; base = 0 };
  idtr = record { limit = 0; base = 0 };
  eflags = 0x202;
}

abbrev at_work : Machine Unit
at_work = record {
  kernel = int_install no_ports (stub 0x1000) (stub 0x2000) 0x3000 booted;
  eax = 0x12345678;
  ecx = 2;
  edx = 3;
  ebx = 4;
  esp = 0x8FFF0;
  ebp = 0x90000;
  esi = 5;
  edi = 6;
  eip = 0x1234;
  cs = 0x08;
  ds = 0x10;
  es = 0x18;
  fs = 0x10;
  gs = 0x10;
}

flags_small : at_work.kernel.eflags < 2 ^ 32
unfolding int_install idt_load isr_install irq_install irq_pic_remap set_idt_gates set_idt_gate
flags_small = omega arith

counted : at_work.kernel.interrupt_handlers 32 ≡ some timer_callback
unfolding int_install idt_load isr_install irq_install irq_pic_remap set_idt_gates set_idt_gate
counted = refl

at_work-IsInterruptible : IsInterruptible at_work
at_work-IsInterruptible = record {
  sized = record {
    eax = omega arith;
    ecx = omega arith;
    edx = omega arith;
    ebx = omega arith;
    esp = omega arith;
    ebp = omega arith;
    esi = omega arith;
    edi = omega arith;
    ds = omega arith;
  };
  eip = omega arith;
  cs = omega arith;
  eflags = flags_small;
  room = omega arith;
}

installed : IsInstalled (stub 0x1000) (stub 0x2000) at_work.kernel
installed =
    int_install-IsInstalled no_ports (stub 0x1000) (stub 0x2000) 0x3000 booted
      (λ n. stub-lt 0x1000 n (omega arith)) (λ n. stub-lt 0x2000 n (omega arith)) (omega arith)

-- The C function leaves other values in three registers.
abbrev scratch : Machine Unit → ℕ × ℕ × ℕ
scratch m = (m.eax + 1, 77, 78)

-- A page fault, of a write.
interrupt-exception_example :
    (k : Kernel Unit) × IsCalled at_work k
    × (interrupt no_ports scratch code_at 14 (some 2) at_work
        ≡ ended (isr_handler no_ports (regs_of 14 2) k))
interrupt-exception_example =
    interrupt-exception no_ports scratch (stub 0x1000) (stub 0x2000) code_at 14 (some 2) at_work
      (omega arith) (refl, omega arith) linked installed at_work-IsInterruptible

-- A tick of the timer.
interrupt-request_example :
    (m' : Machine Unit) × (k' : Kernel Unit) × (interrupt no_ports scratch code_at 32 none at_work
      ≡ resumes m')
    × (irq_handler no_ports (regs_of 32 0) at_work.kernel ≡ some k')
    × IsRestored at_work m'
    × (m'.kernel ≡ record k' { mem = m'.kernel.mem })
    × ((p : ℕ) → (0x8FFF0 ≤ p) ⊎ (p + 68 < 0x8FFF0) → m'.kernel.mem p ≡ at_work.kernel.mem p)
interrupt-request_example =
    interrupt-request no_ports scratch (stub 0x1000) (stub 0x2000) code_at 0 at_work (omega arith)
      linked installed at_work-IsInterruptible (inr counted)

-- The machine after it, register by register.
abbrev after : Ending Unit → List ℕ
after (resumes m) = m.eax ∷ m.ecx ∷ m.edx ∷ m.ebx ∷ m.esp ∷ m.eip ∷ m.ds ∷ m.es ∷ m.kernel.tick ∷ []
after _ = []

tick_lem :
    after (interrupt no_ports scratch code_at 32 none at_work)
    ≡ 0x12345678 ∷ 2 ∷ 3 ∷ 4 ∷ 0x8FFF0 ∷ 0x1234 ∷ 0x10 ∷ 0x10 ∷ 42 ∷ []
unfolding int_install idt_load isr_install irq_install irq_pic_remap set_idt_gates set_idt_gate
    interrupt enter entered push exec run drop run_stub call_irq_handler irq_handler send_eoi
    call_handler load_double store_double
tick_lem = refl
