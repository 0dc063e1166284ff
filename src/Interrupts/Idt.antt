-- ===== src/Interrupts/Idt.antt =====
-- BIOS/kernel/idt.c and idt.h. `idt_address` is where the linker put the table.
pub mod Gates
use mal_os.Prelude.{
  ℕ, ◌+◌, ◌-◌, ◌*◌, ◌==◌, if◌then◌else◌, bit_and, bit_or, u8, u16, u32, ◌<<◌, ◌>>◌, List, [], ◌∷◌,
}
use mal_os.Kernel.State.{Kernel, Gate, IdtPtr}

abbrev pub kernel_cs : ℕ
kernel_cs = 0x08

abbrev pub idt_entries : ℕ
idt_entries = 256

-- `sizeof(idt_entry_t)`; the structure is packed.
abbrev gate_size : ℕ
gate_size = 2 + 2 + 1 + 1 + 2

abbrev pub gate : ℕ → Gate
gate handler = record {
  base_lo = u16 (bit_and handler 0xFFFF);
  sel = kernel_cs;
  always0 = 0;
  flags = 0x8E;
  base_hi = u16 (bit_and (handler >> 16) 0xFFFF);
}

module _ {Dev : Type 0} where
  unfoldable pub set_idt_gate : ℕ → ℕ → Kernel Dev → Kernel Dev
  set_idt_gate n handler k = record k { idt = λ i. if i == u8 n then gate handler else k.idt i }

  -- A sequence of calls of `set_idt_gate`.
  unfoldable pub set_idt_gates : List (ℕ × ℕ) → Kernel Dev → Kernel Dev
  set_idt_gates [] k = k
  set_idt_gates ((n, handler) ∷ rest) k = set_idt_gates rest (set_idt_gate n handler k)

  -- `lidt` loads the register from `idt_reg`; `sti` sets the interrupt flag, bit 9 of EFLAGS.
  unfoldable pub idt_load : ℕ → Kernel Dev → Kernel Dev
  idt_load idt_address k =
      let reg : IdtPtr = record {
        limit = u16 (idt_entries * gate_size - 1);
        base = u32 idt_address;
      } in
      record k { idt_reg = reg; idtr = reg; eflags = bit_or k.eflags (1 << 9) }
