-- ===== src/Boot/Sector/Enter.antt =====
-- From real mode to `kmain`.
use mal_os.Prelude.{
  ℕ, zero, suc, ◌+◌, ◌-◌, ◌*◌, ◌^◌, ◌≤◌, ◌<◌, ◌≡◌, refl, ◌∙◌, ap, ◌⊎◌, inl, inr, false, bit,
  bit-bit_or, bit-le, get_elem?, get_elem?-lt, some, List, [], ◌∷◌, length, arith,
}
use mathlib.Core.Option.{some-injective}
use mal_os.Libc.Memory.{Mem, store}
use mal_os.Kernel.Processor.{load_double, store_double}
use mal_os.Kernel.Processor.Stack.{load-store_double, store_double_outside}
use mal_os.Boot.Gdt.{gdt, Stands, translate, gdt-flat}
use mal_os.Boot.Sector.{
  Labels, Real, Protected, msg_prot_mode, print_string_pm, switch_to_pm, begin_pm, kernel_entry,
}

-- The cells of a string, white on black.
abbrev pub Cells : ℕ → List ℕ → Mem → Type 0
Cells a s m = (i c : ℕ) → get_elem? s i ≡ some c → (m (a + 2 * i) ≡ c) × (m (a + 2 * i + 1) ≡ 0x0f)

pub print_string_pm_outside :
    (a : ℕ) (s : List ℕ) (m : Mem) (p : ℕ)
    → (p < a) ⊎ (a + 2 * length s ≤ p)
    → print_string_pm a s m p ≡ m p
unfolding print_string_pm
print_string_pm_outside a [] m p out = refl
print_string_pm_outside a (c ∷ s) m p out =
    print_string_pm_outside (a + 2) s (store (store m a c) (a + 1) 0x0f) p (ground arith)
    ∙ ground arith

pub print_string_pm-Cells : (a : ℕ) (s : List ℕ) (m : Mem) → Cells a s (print_string_pm a s m)
unfolding print_string_pm
print_string_pm-Cells a [] m i c e = cc
print_string_pm-Cells a (x ∷ s) m zero c e =
    let m₁ = store (store m a x) (a + 1) 0x0f in
    let first = print_string_pm_outside (a + 2) s m₁ a (inl (omega arith)) in
    let second = print_string_pm_outside (a + 2) s m₁ (a + 1) (inl (omega arith)) in
    (
      ap (print_string_pm (a + 2) s m₁) {x = a + 0} {y = a} (omega arith)
          ∙ first
          ∙ ground arith
          ∙ some-injective _ _ e,
      ap (print_string_pm (a + 2) s m₁) {x = a + 0 + 1} {y = a + 1} (omega arith)
          ∙ second
          ∙ ground arith,
    )
print_string_pm-Cells a (x ∷ s) m (suc i) c e =
    let m₁ = store (store m a x) (a + 1) 0x0f in
    let rest = print_string_pm-Cells (a + 2) s m₁ i c e in
    let there =
      ap (print_string_pm (a + 2) s m₁) {x = a + 2 * suc i} {y = a + 2 + 2 * i} (omega arith) in
    let beside =
      ap (print_string_pm (a + 2) s m₁) {x = a + 2 * suc i + 1} {y = a + 2 + 2 * i + 1}
        (omega arith) in
    (there ∙ rest.0, beside ∙ rest.1)

-- Where the assembler and the BIOS put the table: in the boot sector. The address behind the call of
-- `kmain` is one of 32 bits.
pub record IsPlaced (at : Labels) : Type 0 where
  pub from : 0x7c00 ≤ at.gdt_start
  pub to : at.gdt_start + 24 ≤ 0x7e00
  pub back : at.after_kmain < 2 ^ 32

-- What the kernel finds, from memory `m` before the switch: it runs at `kmain`, in protected mode with
-- interrupts off, and through the segments for code, data and stack every offset is its own linear
-- address; the string stands on the screen; on the stack is the address behind the call; and the
-- memory below the stack's three words is as before.
pub record IsEntered (at : Labels) (m : Mem) (p : Protected) : Type 0 where
  pub at_kmain : p.eip ≡ at.kmain
  pub mode : bit 0 p.cr0 ≡ 1
  pub quiet : p.interrupts ≡ false
  pub flat_code :
      (off : ℕ) → off < 2 ^ 32 → translate p.mem p.gdtr_base p.gdtr_limit p.cs off ≡ some off
  pub flat_data :
      (off : ℕ) → off < 2 ^ 32 → translate p.mem p.gdtr_base p.gdtr_limit p.ds off ≡ some off
  pub flat_stack :
      (off : ℕ) → off < 2 ^ 32 → translate p.mem p.gdtr_base p.gdtr_limit p.ss off ≡ some off
  pub banner : Cells 0xb8000 msg_prot_mode p.mem
  pub stack : p.esp ≡ 0x90000 - 12
  pub returns : load_double p.mem p.esp ≡ at.after_kmain
  pub below : (a : ℕ) → a < 0x90000 - 12 → p.mem a ≡ m a

module _ {State : Type 0} where
  abbrev pub enter : Labels → ℕ → Real State → Protected
  enter at cr0 r = kernel_entry at (begin_pm at (switch_to_pm at cr0 r))

  enter_outside :
      (at : Labels) (cr0 : ℕ) (r : Real State) (a : ℕ)
      → a < 0x90000 - 12
      → (enter at cr0 r).mem a ≡ r.mem a
  unfolding kernel_entry begin_pm switch_to_pm
  enter_outside at cr0 r a h =
      let m₁ = store_double r.mem 0x8fffc at.after_begin_pm in
      let m₂ = print_string_pm 0xb8000 msg_prot_mode m₁ in
      let m₃ = store_double m₂ 0x8fff8 at.after_kernel in
      store_double_outside m₃ 0x8fff4 at.after_kmain a (inl (omega arith))
      ∙ store_double_outside m₂ 0x8fff8 at.after_kernel a (inl (omega arith))
      ∙ print_string_pm_outside 0xb8000 msg_prot_mode m₁ a (inl (omega arith))
      ∙ store_double_outside r.mem 0x8fffc at.after_begin_pm a (inl (omega arith))

  enter-Stands :
      (at : Labels) (cr0 : ℕ) (r : Real State)
      → IsPlaced at
      → Stands gdt at.gdt_start r.mem
      → Stands gdt at.gdt_start (enter at cr0 r).mem
  enter-Stands at cr0 r placed stands i b e =
      enter_outside at cr0 r (at.gdt_start + i) (omega (arith, placed.to, get_elem?-lt gdt i e))
      ∙ stands i b e

  pub enter-IsEntered :
      (at : Labels) (cr0 : ℕ) (r : Real State)
      → IsPlaced at
      → Stands gdt at.gdt_start r.mem
      → IsEntered at r.mem (enter at cr0 r)
  unfolding kernel_entry begin_pm switch_to_pm
  enter-IsEntered at cr0 r placed stands =
      let m = (enter at cr0 r).mem in
      let there = enter-Stands at cr0 r placed stands in
      let m₁ = store_double r.mem 0x8fffc at.after_begin_pm in
      let m₂ = print_string_pm 0xb8000 msg_prot_mode m₁ in
      let m₃ = store_double m₂ 0x8fff8 at.after_kernel in
      let kept : (a : ℕ) → 0xb8000 ≤ a → m a ≡ m₂ a = λ a h.
        store_double_outside m₃ 0x8fff4 at.after_kmain a (inr (omega arith))
        ∙ store_double_outside m₂ 0x8fff8 at.after_kernel a (inr (omega arith)) in
      record {
        at_kmain = refl;
        mode = ground (arith, bit-bit_or 0 cr0 1, bit-le 0 cr0);
        quiet = refl;
        flat_code = λ off h. (gdt-flat m at.gdt_start there off h).2;
        flat_data = λ off h. (gdt-flat m at.gdt_start there off h).3;
        flat_stack = λ off h. (gdt-flat m at.gdt_start there off h).3;
        banner = λ i c e.
            let cell = print_string_pm-Cells 0xb8000 msg_prot_mode m₁ i c e in
            (kept _ (omega arith) ∙ cell.0, kept _ (omega arith) ∙ cell.1);
        stack = refl;
        returns = load-store_double m₃ 0x8fff4 at.after_kmain placed.back;
        below = λ a h. enter_outside at cr0 r a h;
      }
