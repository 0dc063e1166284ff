-- ===== src/Interrupts/Stubs/Call.antt =====
-- What the C function is called with.
use mal_os.Prelude.{
  ℕ, ◌+◌, ◌-◌, ◌^◌, ◌≤◌, ◌<◌, ◌≡◌, refl, ◌∙◌, ap, ap₂, ◌⊎◌, ◌∷◌, ◌==◌, false, bit, bit_and,
  bit-bit_and, truth-digit, not32, arith,
}
use mal_os.Kernel.State.{Kernel}
use mal_os.Kernel.Processor.{Machine, flag_if, flag_df, load_double, push, run, exec}
use mal_os.Kernel.Processor.Stack.{Holds-at}
use mal_os.Interrupts.Isr.{Registers, are_interrupts_enabled}
use mal_os.Interrupts.Stubs.{save_context, registers_at}
use mal_os.Interrupts.Stubs.Entry.{Saved, arrived, context, cause}

registers_equal :
    {a a' b b' : ℕ}
    → a ≡ a'
    → b ≡ b'
    → ◌≡◌ {A = Registers}
        (record { int_no = a; err_code = b })
        (record { int_no = a'; err_code = b' })
registers_equal e f = ap₂ (λ x y. record { int_no = x; err_code = y }) e f

no_flag : (w : ℕ) → bit 9 (bit_and (bit_and w (not32 flag_if)) (not32 flag_df)) ≡ 0
no_flag w = omega (
  arith,
  bit-bit_and 9 (bit_and w (not32 flag_if)) (not32 flag_df),
  bit-bit_and 9 w (not32 flag_if),
  ap (bit 9) {x = not32 flag_if} {y = 2 ^ 32 - 1 - 2 ^ 9} refl,
)

module _ {Dev : Type 0} where
  -- The pointer leads to the structure, with the vector and the error code.
  pub registers_at-Saved :
      (n code : ℕ) (m m₁ : Machine Dev)
      → Saved n code m m₁
      → registers_at m₁ ≡ record { int_no = n; err_code = code }
  registers_at-Saved n code m m₁ saved =
      let mem = m₁.kernel.mem in
      let words = (m₁.esp + 4) ∷ context (m.esp - 20) m (cause n code m) in
      let p = saved.words.0 in
      registers_equal
        (ap (load_double mem) (omega (arith, p)) ∙ Holds-at mem words m₁.esp 10 refl saved.words)
        (ap (load_double mem) (omega (arith, p)) ∙ Holds-at mem words m₁.esp 11 refl saved.words)

  -- The handler runs on the interrupted kernel, but for the memory of its stack, with interrupts off.
  pub record IsCalled (m : Machine Dev) (k : Kernel Dev) : Type 0 where
    pub same : k ≡ record m.kernel { mem = k.mem; eflags = k.eflags }
    pub outside : (p : ℕ) → (m.esp ≤ p) ⊎ (p + 68 < m.esp) → k.mem p ≡ m.kernel.mem p
    pub disabled : are_interrupts_enabled k ≡ false

  pub arrived-IsCalled :
      (n code : ℕ) (m : Machine Dev)
      → let m₁ = run save_context (arrived n code m) in Saved n code m m₁ → IsCalled m m₁.kernel
  unfolding run exec push arrived are_interrupts_enabled
  arrived-IsCalled n code m saved = record {
    same = refl;
    outside = saved.outside;
    disabled = truth-digit 9 _ ∙ ap (λ x. x == 1) (no_flag _);
  }
