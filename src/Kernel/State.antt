-- ===== src/Kernel/State.antt =====
-- The global variables that the kernel's parts share, with the memory and the devices.
-- `Handler` has a constructor for each function that the sources register with
-- `register_interrupt_handler`; an entry `none` of the table is a null pointer.
use mal_os.Prelude.{ℕ, Option}
use mal_os.Libc.Memory.{Mem}
use mal_os.Kernel.Ports.{Ports, ports_inb, ports_outb}

pub data Handler : Type 0 where
  timer_callback divhandler page_fault : Handler

-- `idt_entry_t`.
pub record Gate : Type 0 where
  pub base_lo : ℕ
  pub sel : ℕ
  pub always0 : ℕ
  pub flags : ℕ
  pub base_hi : ℕ

-- `idt_ptr_t`.
pub record IdtPtr : Type 0 where
  pub limit : ℕ
  pub base : ℕ

-- `t_color`, `t_err_color` and `t_buff` are T_COLOR, T_ERR_COLOR and T_BUFF of tty.c. `idtr` and
-- `eflags` are registers of the CPU.
pub record Kernel (Dev : Type 0) : Type 0 where
  pub dev : Dev
  pub mem : Mem
  pub t_color : ℕ
  pub t_err_color : ℕ
  pub t_buff : ℕ
  pub tick : ℕ
  pub pit_frequency : ℕ
  pub interrupt_handlers : ℕ → Option Handler
  pub idt : ℕ → Gate
  pub idt_reg : IdtPtr
  pub idtr : IdtPtr
  pub eflags : ℕ

-- Port input and output by the kernel.
module _ {Dev : Type 0} (hw : Ports Dev) where
  abbrev pub outb : ℕ → ℕ → Kernel Dev → Kernel Dev
  outb port v k = record k { dev = ports_outb hw port v k.dev }

  abbrev pub inb : ℕ → Kernel Dev → ℕ × Kernel Dev
  inb port k = let (v, d) = ports_inb hw port k.dev in (v, record k { dev = d })
