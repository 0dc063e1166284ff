-- ===== src/Interrupts/Isr.antt =====
-- BIOS/kernel/isr.c and isr.h, test_int.c, and the timer's callback of timer.c. The entry stubs of
-- interrupt.asm are parameters: `isr n` and `irq n` are their addresses. `io_wait` only jumps to the
-- next instruction. `none` stands for what C leaves undefined: an index out of an array's range, or
-- a call through a pointer of another function type.
pub mod Install
pub mod Pic
pub mod Messages
pub mod Handle
pub mod Sample
mod Tests
use Prim.Native.String.{String}
use mal_os.Prelude.{
  ℕ, ◌+◌, bit_and, bit_or, ◌==◌, ltb, leb, if◌then◌else◌, Bool, u8, u16, u32, ◌<<◌, truth, Option,
  none, some, List, [], ◌∷◌, codes, get_elem?, map,
}
use mal_os.Kernel.Ports.{Ports}
use mal_os.Kernel.State.{Kernel, Handler, timer_callback, divhandler, page_fault, outb, inb}
use mal_os.Kernel.Vga.{white, blue, red, black}
use mal_os.Kernel.Tty.{terminal_setcolor}
use mal_os.Libc.Printf.{Arg, int, str, printf}
use mal_os.Interrupts.Idt.{set_idt_gates, idt_load}

-- The fields of `registers_t` that the handlers read; the others only carry the interrupted context.
pub record Registers : Type 0 where
  pub int_no : ℕ
  pub err_code : ℕ

abbrev pub reg_mpic_ctrl : ℕ
reg_mpic_ctrl = 0x20

abbrev pub reg_mpic_data : ℕ
reg_mpic_data = 0x21

abbrev pub reg_spic_ctrl : ℕ
reg_spic_ctrl = 0xA0

abbrev pub reg_spic_data : ℕ
reg_spic_data = 0xA1

abbrev pub pic_eoi : ℕ
pic_eoi = 0x20

abbrev icw1_icw4 : ℕ
icw1_icw4 = 0x01

abbrev icw1_init : ℕ
icw1_init = 0x10

abbrev icw4_8086 : ℕ
icw4_8086 = 0x01

abbrev pub message_texts : List String
message_texts =
    "Division by Zero" ∷ "Single-step interrupt (trap flag)" ∷ "Non Maskable Interrupt"
    ∷ "Breakpoint" ∷ "Into Detected Overflow" ∷ "Out of Bounds" ∷ "Invalid Opcode"
    ∷ "Coprocessor not Available" ∷ "Double Fault" ∷ "Coprocessor Segment Overrun" ∷ "Bad TSS"
    ∷ "Segment Not Present" ∷ "Stack Fault" ∷ "General Protection Fault" ∷ "Page Fault" ∷ "Reserved"
    ∷ "Math Fault" ∷ "Alignment Check" ∷ "Machine Check" ∷ "SIMD Floating-Point" ∷ "Virtualization"
    ∷ "Control Protection" ∷ "Reserved" ∷ "Reserved" ∷ "Reserved" ∷ "Reserved" ∷ "Reserved"
    ∷ "Reserved" ∷ "Reserved" ∷ "Reserved" ∷ "Reserved" ∷ "Reserved" ∷ []

abbrev pub exception_messages : ℕ → Option (List ℕ)
exception_messages n = get_elem? (map codes message_texts) n

abbrev pub received_format : List ℕ
received_format = codes "\nreceived interrupt: %xh -> %s Exception !\n"

abbrev pub panic_text : List ℕ
panic_text = codes ">> no registered interrupt handler - PANIC (hlt)      "

-- The bit of EFLAGS as a `bool`; `pushf` and `pop` read the register.
unfoldable pub are_interrupts_enabled : {Dev : Type 0} → Kernel Dev → Bool
are_interrupts_enabled k = truth (bit_and k.eflags (1 << 9))

unfoldable pub register_interrupt_handler : {Dev : Type 0} → ℕ → Handler → Kernel Dev → Kernel Dev
register_interrupt_handler n handler k = record k {
  interrupt_handlers = λ i. if i == u8 n then some handler else k.interrupt_handlers i;
}

-- BIOS/kernel/test_int.c.
unfoldable pub init_test : {Dev : Type 0} → Kernel Dev → Kernel Dev
init_test k = register_interrupt_handler 0 divhandler k

unfoldable pub isr_install : {Dev : Type 0} → (ℕ → ℕ) → Kernel Dev → Kernel Dev
isr_install isr k =
    set_idt_gates
      ((0, isr 0)
        ∷ (1, isr 1)
        ∷ (2, isr 2)
        ∷ (3, isr 3)
        ∷ (4, isr 4)
        ∷ (5, isr 5)
        ∷ (6, isr 6)
        ∷ (7, isr 7)
        ∷ (8, isr 8)
        ∷ (9, isr 9)
        ∷ (10, isr 10)
        ∷ (11, isr 11)
        ∷ (12, isr 12)
        ∷ (13, isr 13)
        ∷ (14, isr 14)
        ∷ (15, isr 15)
        ∷ (16, isr 16)
        ∷ (17, isr 17)
        ∷ (18, isr 18)
        ∷ (19, isr 19)
        ∷ (20, isr 20)
        ∷ (21, isr 21)
        ∷ (22, isr 22)
        ∷ (23, isr 23)
        ∷ (24, isr 24)
        ∷ (25, isr 25)
        ∷ (26, isr 26)
        ∷ (27, isr 27)
        ∷ (28, isr 28)
        ∷ (29, isr 29)
        ∷ (30, isr 30)
        ∷ (31, isr 31)
        ∷ [])
      k

-- How `isr_handler` ends: the processor stops in that state, at a `hlt` with interrupts off, or the
-- behaviour is undefined.
pub data Outcome (Dev : Type 0) : Type 0 where
  halted : Kernel Dev → Outcome Dev
  undefined : Outcome Dev

module _ {Dev : Type 0} (hw : Ports Dev) where
  unfoldable pub irq_pic_remap : ℕ → ℕ → Kernel Dev → Kernel Dev
  irq_pic_remap block_a block_b k =
      let (a, k₁) = inb hw reg_mpic_data k in
      let (b, k₂) = inb hw reg_spic_data k₁ in
      let mask_a = u16 a in
      let mask_b = u16 b in
      let k₃ = outb hw reg_mpic_ctrl (bit_or icw1_init icw1_icw4) k₂ in
      let k₄ = outb hw reg_spic_ctrl (bit_or icw1_init icw1_icw4) k₃ in
      let k₅ = outb hw reg_mpic_data block_a k₄ in
      let k₆ = outb hw reg_spic_data block_b k₅ in
      let k₇ = outb hw reg_mpic_data 0x04 k₆ in
      let k₈ = outb hw reg_spic_data 0x02 k₇ in
      let k₉ = outb hw reg_mpic_data icw4_8086 k₈ in
      let k₁₀ = outb hw reg_spic_data icw4_8086 k₉ in
      outb hw reg_spic_data mask_b (outb hw reg_mpic_data mask_a k₁₀)

  unfoldable pub irq_install : (ℕ → ℕ) → Kernel Dev → Kernel Dev
  irq_install irq k =
      set_idt_gates
        ((32, irq 0)
          ∷ (33, irq 1)
          ∷ (34, irq 2)
          ∷ (35, irq 3)
          ∷ (36, irq 4)
          ∷ (37, irq 5)
          ∷ (38, irq 6)
          ∷ (39, irq 7)
          ∷ (40, irq 8)
          ∷ (41, irq 9)
          ∷ (42, irq 10)
          ∷ (43, irq 11)
          ∷ (44, irq 12)
          ∷ (45, irq 13)
          ∷ (46, irq 14)
          ∷ (47, irq 15)
          ∷ [])
        (irq_pic_remap 32 40 k)

  unfoldable pub int_install : (ℕ → ℕ) → (ℕ → ℕ) → ℕ → Kernel Dev → Kernel Dev
  int_install isr irq idt_address k = idt_load idt_address (isr_install isr (irq_install irq k))

  -- A call of a registered handler. `page_fault` takes its registers by value, so a call through a
  -- pointer to a function on `registers_t*` is undefined.
  unfoldable pub call_handler : Handler → Registers → Kernel Dev → Option (Kernel Dev)
  call_handler timer_callback regs k = some (record k { tick = u32 (k.tick + 1) })
  call_handler divhandler regs k = elim (printf hw (codes "caught!") [] k) [
    | none ↦ none
    | some (n, k') ↦ some k'
  ]
  call_handler page_fault regs k = none

  -- From the test for a handler on.
  unfoldable pub dispatch : Registers → Kernel Dev → Outcome Dev
  dispatch regs k = elim (k.interrupt_handlers regs.int_no) [
    | some handler ↦ elim (call_handler handler regs k) [
      | none ↦ undefined
      | some k' ↦ halted (terminal_setcolor hw white blue k')
    ]
    | none ↦ elim (printf hw panic_text [] k) [ none ↦ undefined | some (n, k') ↦ halted k' ]
  ]

  unfoldable pub isr_handler : Registers → Kernel Dev → Outcome Dev
  isr_handler regs k = elim (exception_messages regs.int_no) [
    | none ↦ undefined
    | some message ↦
        elim (printf hw received_format (int regs.int_no ∷ str message ∷ [])
          (terminal_setcolor hw red black k)) [ none ↦ undefined | some (n, k') ↦ dispatch regs k' ]
  ]

  -- The end-of-interrupt commands of `irq_handler`.
  unfoldable pub send_eoi : ℕ → Kernel Dev → Kernel Dev
  send_eoi int_no k =
      let k₁ = if leb 40 int_no then outb hw reg_spic_ctrl pic_eoi k else k in
      outb hw reg_mpic_ctrl pic_eoi k₁

  -- The table has 256 entries.
  unfoldable pub irq_handler : Registers → Kernel Dev → Option (Kernel Dev)
  irq_handler regs k =
      let k₁ = send_eoi regs.int_no k in
      if ltb regs.int_no 256
      then elim (k₁.interrupt_handlers regs.int_no) [
        | some handler ↦ call_handler handler regs k₁
        | none ↦ some k₁
      ]
      else none
