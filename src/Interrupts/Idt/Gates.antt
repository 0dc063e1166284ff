-- ===== src/Interrupts/Idt/Gates.antt =====
-- What the processor reads in a gate, and tables that are filled gate by gate.
use mal_os.Prelude.{
  ℕ, zero, suc, ◌+◌, ◌*◌, ◌/◌, ◌%◌, ◌^◌, ◌≤◌, ◌<◌, ◌≡◌, refl, ◌&&◌, ltb, leb, if◌then◌else◌,
  bit_and-ones, arith, List, [], ◌∷◌, ◌∙◌,
}
use mal_os.Kernel.State.{Kernel, Gate}
use mal_os.Interrupts.Idt.{kernel_cs, gate, set_idt_gate, set_idt_gates}

-- A present 32-bit interrupt gate of privilege level 0 to `handler` in the kernel's code segment.
pub record IsGateTo (handler : ℕ) (g : Gate) : Type 0 where
  pub offset : g.base_hi * 2 ^ 16 + g.base_lo ≡ handler
  pub segment : g.sel ≡ kernel_cs
  pub present : g.flags / 2 ^ 7 ≡ 1
  pub level : g.flags / 2 ^ 5 % 4 ≡ 0
  pub kind : g.flags % 2 ^ 5 ≡ 0x0E

pub gate-IsGateTo : (handler : ℕ) → handler < 2 ^ 32 → IsGateTo handler (gate handler)
gate-IsGateTo handler h = record {
  offset = omega (arith, bit_and-ones 16 handler, bit_and-ones 16 (handler / 2 ^ 16));
  segment = refl;
  present = refl;
  level = refl;
  kind = refl;
}

-- The gates `lo` to `lo + count - 1`, in order.
abbrev pub row : ℕ → ℕ → (ℕ → ℕ) → List (ℕ × ℕ)
row zero lo handlers = []
row (suc count) lo handlers = (lo, handlers lo) ∷ row count (lo + 1) handlers

module _ {Dev : Type 0} where
  pub set_idt_gates-row :
      (count lo : ℕ) (handlers : ℕ → ℕ) (k : Kernel Dev) (n : ℕ)
      → lo + count ≤ 256
      → (set_idt_gates (row count lo handlers) k).idt n
        ≡ (if leb lo n && ltb n (lo + count) then gate (handlers n) else k.idt n)
  unfolding set_idt_gates
  set_idt_gates-row zero lo handlers k n h = ground arith
  set_idt_gates-row (suc count) lo handlers k n h =
      set_idt_gates-row count (lo + 1) handlers (set_idt_gate lo (handlers lo) k) n (omega arith)
      ∙ unfold set_idt_gate in ground arith

  -- The table is all that changes.
  pub set_idt_gates_only :
      (gates : List (ℕ × ℕ)) (k : Kernel Dev)
      → set_idt_gates gates k ≡ record k { idt = (set_idt_gates gates k).idt }
  unfolding set_idt_gates set_idt_gate
  set_idt_gates_only [] k = refl
  set_idt_gates_only ((n, handler) ∷ rest) k = set_idt_gates_only rest (set_idt_gate n handler k)
