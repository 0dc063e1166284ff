-- ===== src/Main/Interrupted/Tests.antt =====
-- A wait of four ticks on the small board, through the stubs.
use mal_os.Prelude.{ℕ, ◌+◌, ◌^◌, ◌<◌, ◌≡◌, refl, u32, some, arith}
use mal_os.Kernel.Processor.{Machine}
use mal_os.Interrupts.Idt.{idt_load, set_idt_gate, set_idt_gates}
use mal_os.Interrupts.Isr.{
  isr_install, irq_install, irq_pic_remap, int_install, are_interrupts_enabled,
}
use mal_os.Interrupts.Stubs.Sample.{stub, stub-lt, code_at, linked}
use mal_os.Interrupts.Stubs.Entry.{IsInterruptible}
use mal_os.Interrupts.Stubs.Deliver.{IsInstalled, int_install-IsInstalled}
use mal_os.Main.{sleep_on}
use mal_os.Main.Board.{IsTicking, Runs}
use mal_os.Main.Sample.{Devices, board_ports, clock_pass, board, ticking}
use mal_os.Main.Interrupted.{IsUndisturbed, machine_sleep}
use mal_os.Main.Interrupted.Sleeps.{Agree, machine_sleep-sleep_on, machine_sleep_lem}

abbrev in_loop : Machine Devices
in_loop = record {
  kernel = int_install board_ports (stub 0x1000) (stub 0x2000) 0x3000 ticking;
  eax = 0x12345678;
  ecx = 2;
  edx = 3;
  ebx = 4;
  esp = 0x8FFF0;
  ebp = 0x90000;
  esi = 5;
  edi = 6;
  eip = 0x1234;
  cs = 0x08;
  ds = 0x10;
  es = 0x10;
  fs = 0x10;
  gs = 0x10;
}

flags_small : in_loop.kernel.eflags < 2 ^ 32
unfolding int_install idt_load isr_install irq_install irq_pic_remap set_idt_gates set_idt_gate
flags_small = omega arith

tick_small : in_loop.kernel.tick < 2 ^ 32
unfolding int_install idt_load isr_install irq_install irq_pic_remap set_idt_gates set_idt_gate
tick_small = omega arith

in_loop-IsInterruptible : IsInterruptible in_loop
in_loop-IsInterruptible = record {
  sized = record {
    eax = omega arith;
    ecx = omega arith;
    edx = omega arith;
    ebx = omega arith;
    esp = omega arith;
    ebp = omega arith;
    esi = omega arith;
    edi = omega arith;
    ds = omega arith;
  };
  eip = omega arith;
  cs = omega arith;
  eflags = flags_small;
  room = omega arith;
}

installed : IsInstalled (stub 0x1000) (stub 0x2000) in_loop.kernel
installed =
    int_install-IsInstalled board_ports (stub 0x1000) (stub 0x2000) 0x3000 ticking
      (λ n. stub-lt 0x1000 n (omega arith)) (λ n. stub-lt 0x2000 n (omega arith)) (omega arith)

in_loop-IsTicking : IsTicking board in_loop.kernel
unfolding int_install idt_load isr_install irq_install irq_pic_remap set_idt_gates set_idt_gate
    are_interrupts_enabled
in_loop-IsTicking = record { handler = refl; enabled = refl; frequency = refl }

-- The C functions leave other values in three registers.
abbrev scratch : Machine Devices → ℕ × ℕ × ℕ
scratch m = (m.eax + 1, 77, 78)

machine_sleep-sleep_on_example :
    Agree in_loop
      (machine_sleep board_ports clock_pass scratch code_at 20 200 in_loop)
      (sleep_on board_ports clock_pass 20 200 in_loop.kernel)
machine_sleep-sleep_on_example =
    machine_sleep-sleep_on board_ports clock_pass scratch (stub 0x1000) (stub 0x2000) code_at 20 200
      in_loop linked installed in_loop-IsInterruptible in_loop-IsTicking.handler

machine_sleep_lem_example :
    (m' : Machine Devices) × (machine_sleep board_ports clock_pass scratch code_at 20 200 in_loop
      ≡ some m')
    × (m'.kernel.tick ≡ u32 (in_loop.kernel.tick + 4))
    × IsUndisturbed in_loop m'
    × Runs in_loop.kernel m'.kernel
machine_sleep_lem_example =
    machine_sleep_lem board scratch (stub 0x1000) (stub 0x2000) code_at 20 200 in_loop linked
      installed in_loop-IsInterruptible in_loop-IsTicking tick_small (omega arith) (omega arith)
