-- ===== src/Interrupts/Isr/Tests.antt =====
-- The theorems on two small 8259A controllers.
use mal_os.Prelude.{
  ℕ, ◌+◌, ◌-◌, ◌%◌, ◌^◌, ◌≡◌, refl, ◌*◌, ◌==◌, inr, if◌then◌else◌, arith, u8, some, none, List, map,
  true,
}
use mal_os.Kernel.State.{Kernel, timer_callback}
use mal_os.Kernel.Vga.{red, black}
use mal_os.Kernel.Tty.{terminal_setcolor}
use mal_os.Kernel.Tty.Text.{Writes}
use mal_os.Kernel.Tty.Sample.{Crtc, ports, ports-IsCrtc, full}
use mal_os.Libc.Itoa.RoundTrip.{IsNotation}
use mal_os.Interrupts.Idt.{gate}
use mal_os.Interrupts.Isr.{
  Registers, are_interrupts_enabled, int_install, irq_pic_remap, isr_handler, irq_handler,
  exception_messages,
}
use mal_os.Interrupts.Isr.Messages.{received}
use mal_os.Interrupts.Isr.Install.{Vector, int_install_lem}
use mal_os.Interrupts.Isr.Pic.{remapped, irq_pic_remap_lem}
use mal_os.Interrupts.Isr.Sample.{Pics, pic_ports, pic_ports-IsPics, pic_at}
use mal_os.Interrupts.Isr.Handle.{Handled, isr_handler-Handled, ticked, irq_handler_lem}

-- An interrupt of the timer is being served.
abbrev running : Kernel Pics
running = record {
  dev = record { a = pic_at 8; b = pic_at 0x70; a_serves = 1; b_serves = 0 };
  mem = λ p. 0;
  t_color = 0;
  t_err_color = 0;
  t_buff = 0xb8000;
  tick = 2 ^ 32 - 1;
  pit_frequency = 50;
  interrupt_handlers = λ n. if n == 32 then some timer_callback else none;
  idt = λ n. gate 0;
  idt_reg = record { limit = 0; base = 0 };
  idtr = record { limit = 0; base = 0 };
  eflags = 2;
}

irq_pic_remap_lem_example :
    let k' = irq_pic_remap pic_ports 32 40 running in
    (k'.dev.a ≡ remapped 32 0x04 (pic_at 8))
    × (k'.dev.b ≡ remapped 40 0x02 (pic_at 0x70))
    × (k' ≡ record running { dev = k'.dev })
irq_pic_remap_lem_example =
    irq_pic_remap_lem pic_ports-IsPics 32 40 running (omega arith) (omega arith) refl refl refl refl
      (omega arith) (omega arith)

abbrev timer_interrupt : Registers
timer_interrupt = record { int_no = 32; err_code = 0 }

-- The tick wraps around.
irq_handler_lem_example :
    (k' : Kernel Pics) × (irq_handler pic_ports timer_interrupt running ≡ some k')
    × (k'.dev.a_serves ≡ 0)
    × (k'.dev.b_serves ≡ 0)
    × (k' ≡ record running { dev = k'.dev; tick = ticked (some timer_callback) running.tick })
irq_handler_lem_example =
    irq_handler_lem pic_ports-IsPics timer_interrupt 0 0 running (omega arith) (inr refl) refl refl

abbrev division : Registers
division = record { int_no = 0; err_code = 0 }

isr_handler-Handled_example :
    (message ds : List ℕ) × (k' : Kernel Crtc) × (exception_messages 0 ≡ some message)
    × IsNotation 16 8 0 ds
    × Writes ports-IsCrtc (map u8 (received ds message)) (terminal_setcolor ports red black full) k'
    × Handled ports-IsCrtc none k' (isr_handler ports division full)
isr_handler-Handled_example =
    isr_handler-Handled ports-IsCrtc division full (omega arith) (omega arith)

abbrev isrs : ℕ → ℕ
isrs n = 0x1000 + n % 32

abbrev irqs : ℕ → ℕ
irqs n = 0x2000 + n % 16

int_install_lem_example :
    let k' = int_install pic_ports isrs irqs 0x9000 running in
    ((n : ℕ) → Vector pic_ports isrs irqs (running.idt n) n (k'.idt n))
    × (k'.idtr.base ≡ 0x9000)
    × (k'.idtr.limit + 1 ≡ 256 * 8)
    × (are_interrupts_enabled k' ≡ true)
int_install_lem_example =
    int_install_lem pic_ports isrs irqs 0x9000 running (λ n. omega arith) (λ n. omega arith)
      (omega arith)
