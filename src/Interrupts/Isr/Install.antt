-- ===== src/Interrupts/Isr/Install.antt =====
-- The table of interrupts after `int_install`.
use mal_os.Prelude.{
  ◌⊎◌, inl, inr, false, ℕ, ◌+◌, ◌-◌, ◌^◌, ◌≤◌, ◌<◌, ◌≡◌, refl, ltb, leb, ◌&&◌, if◌then◌else◌,
  bit_and, bit_or, true, truth, ◌<<◌, arith, sym, ◌∙◌, subst, bit-bit_or, bit-le, bit-pow_self,
  truth-digit, ◌*◌,
}
use native.Mathlib.Decide.{dec_lt}
use mal_os.Kernel.Ports.{Ports}
use mal_os.Kernel.State.{Kernel, Gate}
use mal_os.Interrupts.Idt.{gate, idt_load}
use mal_os.Interrupts.Idt.Gates.{IsGateTo, gate-IsGateTo, set_idt_gates-row}
use mal_os.Interrupts.Isr.{
  are_interrupts_enabled, isr_install, irq_install, irq_pic_remap, int_install,
}

module _ {Dev : Type 0} (hw : Ports Dev) (isr irq : ℕ → ℕ) where
  isr_install-idt :
      (k : Kernel Dev) (n : ℕ)
      → (isr_install isr k).idt n ≡ (if ltb n 32 then gate (isr n) else k.idt n)
  unfolding isr_install
  isr_install-idt k n = set_idt_gates-row 32 0 isr k n (omega arith) ∙ ground arith

  irq_install-idt :
      (k : Kernel Dev) (n : ℕ)
      → (irq_install hw irq k).idt n
        ≡ (if leb 32 n && ltb n 48 then gate (irq (n - 32)) else k.idt n)
  unfolding irq_install irq_pic_remap
  irq_install-idt k n =
      set_idt_gates-row 16 32 (λ v. irq (v - 32)) (irq_pic_remap hw 32 40 k) n (omega arith)

  enabled_lem : (flags : ℕ) → truth (bit_and (bit_or flags (1 << 9)) (1 << 9)) ≡ true
  enabled_lem flags =
      truth-digit 9 (bit_or flags (1 << 9))
      ∙ ground (arith, bit-bit_or 9 flags (2 ^ 9), bit-pow_self 9, bit-le 9 flags)

  int_install-idt :
      (idt_address : ℕ) (k : Kernel Dev) (n : ℕ)
      → (int_install hw isr irq idt_address k).idt n
        ≡ (if ltb n 32 then gate (isr n) else if ltb n 48 then gate (irq (n - 32)) else k.idt n)
  unfolding int_install idt_load
  int_install-idt idt_address k n =
      ground (arith, isr_install-idt (irq_install hw irq k) n, irq_install-idt k n)

  -- Where a vector leads to, if it led to `before` at first.
  abbrev pub Vector : Gate → ℕ → Gate → Type 0
  Vector before n g =
      ((n < 32) × IsGateTo (isr n) g)
      ⊎ ((32 ≤ n) × (n < 48) × IsGateTo (irq (n - 32)) g)
      ⊎ ((48 ≤ n) × (g ≡ before))

  vector_lem :
      (before : Gate) (n : ℕ)
      → isr n < 2 ^ 32
      → irq (n - 32) < 2 ^ 32
      → Vector before n
          (if ltb n 32 then gate (isr n) else if ltb n 48 then gate (irq (n - 32)) else before)
  vector_lem before n hi hq = elim (dec_lt n 32) [
    | yes low ↦ let e : ltb n 32 ≡ true = ground arith in rw e (inl (low, gate-IsGateTo (isr n) hi))
    | no not_low ↦
        let e : ltb n 32 ≡ false = ground arith in
        rw e (elim (dec_lt n 48) [
          | yes mid ↦
              let d : ltb n 48 ≡ true = ground arith in
              rw d (inr (inl (omega arith, mid, gate-IsGateTo (irq (n - 32)) hq)))
          | no high ↦
              let d : ltb n 48 ≡ false = ground arith in rw d (inr (inr (omega arith, refl)))
        ])
  ]

  -- After `int_install`, with entry stubs at 32-bit addresses: vectors 0 to 31 lead to the stubs of
  -- the exceptions and vectors 32 to 47 to those of the interrupt requests 0 to 15, each through a
  -- present interrupt gate of level 0 in the kernel's code segment; the other gates are as before;
  -- the processor uses the whole table, and interrupts are enabled.
  pub int_install_lem :
      (idt_address : ℕ) (k : Kernel Dev)
      → ((n : ℕ) → isr n < 2 ^ 32)
      → ((n : ℕ) → irq n < 2 ^ 32)
      → idt_address < 2 ^ 32
      → let k' = int_install hw isr irq idt_address k in
        ((n : ℕ) → Vector (k.idt n) n (k'.idt n))
        × (k'.idtr.base ≡ idt_address)
        × (k'.idtr.limit + 1 ≡ 256 * 8)
        × (are_interrupts_enabled k' ≡ true)
  unfolding int_install idt_load are_interrupts_enabled
  int_install_lem idt_address k isrs irqs h = (
    λ n.
        subst (Vector (k.idt n) n) (sym (int_install-idt idt_address k n))
          (vector_lem (k.idt n) n (isrs n) (irqs (n - 32))),
    omega arith,
    refl,
    enabled_lem _,
  )
