-- ===== src/Interrupts/Stubs/Return.antt =====
-- What `irq_common_stub` leaves when the C function has returned.
use mal_os.Prelude.{ℕ, ◌+◌, ◌*◌, ◌/◌, ◌^◌, ◌≡◌, ◌∙◌, ap, u16, ◌∷◌, arith}
use mal_os.Libc.Memory.{Mem}
use mal_os.Kernel.Processor.{Machine, with_flags, drop, run, exec}
use mal_os.Kernel.Processor.Stack.{pop-IsStack, drop-IsStack}
use mal_os.Interrupts.Stubs.{restore_context}
use mal_os.Interrupts.Stubs.Entry.{IsInterruptible, Has, context, cause}

module _ {Dev : Type 0} where
  -- The registers are as in `m`, but that es, fs and gs are set to ds.
  pub record IsRestored (m m' : Machine Dev) : Type 0 where
    pub eax : m'.eax ≡ m.eax
    pub ecx : m'.ecx ≡ m.ecx
    pub edx : m'.edx ≡ m.edx
    pub ebx : m'.ebx ≡ m.ebx
    pub esp : m'.esp ≡ m.esp
    pub ebp : m'.ebp ≡ m.ebp
    pub esi : m'.esi ≡ m.esi
    pub edi : m'.edi ≡ m.edi
    pub eip : m'.eip ≡ m.eip
    pub cs : m'.cs ≡ m.cs
    pub eflags : m'.kernel.eflags ≡ m.kernel.eflags
    pub ds : m'.ds ≡ m.ds
    pub es : m'.es ≡ m.ds
    pub fs : m'.fs ≡ m.ds
    pub gs : m'.gs ≡ m.ds

  pub restore_context-IsRestored :
      (n code p e : ℕ) (before : Mem) (m m₂ : Machine Dev)
      → IsInterruptible m
      → Has before m.esp (p ∷ context e m (cause n code m)) m₂
      → let m₃ = run restore_context m₂ in
        IsRestored m m₃ × (m₃.kernel ≡ record m₂.kernel { eflags = m.kernel.eflags })
  unfolding run exec drop
  restore_context-IsRestored n code p e before m m₂ fit s =
      let hb = fit.sized.esp in
      let (_, s₁) = pop-IsStack _ _ _ hb s in
      let (segment, s₂) = pop-IsStack _ _ _ hb s₁ in
      let (edi, s₃) = pop-IsStack _ _ _ hb s₂ in
      let (esi, s₄) = pop-IsStack _ _ _ hb s₃ in
      let (ebp, s₅) = pop-IsStack _ _ _ hb s₄ in
      let (_, s₆) = pop-IsStack _ _ _ hb s₅ in
      let (ebx, s₇) = pop-IsStack _ _ _ hb s₆ in
      let (edx, s₈) = pop-IsStack _ _ _ hb s₇ in
      let (ecx, s₉) = pop-IsStack _ _ _ hb s₈ in
      let (eax, s₁₀) = pop-IsStack _ _ _ hb s₉ in
      let s₁₂ = drop-IsStack _ _ _ _ hb s₁₀ in
      let (eip, s₁₃) = pop-IsStack _ _ _ hb s₁₂ in
      let (cs, s₁₄) = pop-IsStack _ _ _ hb s₁₃ in
      let (eflags, s₁₅) = pop-IsStack _ _ _ hb s₁₄ in
      let low : u16 (m.eax / 2 ^ 16 * 2 ^ 16 + m.ds) ≡ m.ds = omega (arith, fit.sized.ds) in
      let segment_low = ap u16 segment ∙ low in
      (
        record {
          eax = eax;
          ecx = ecx;
          edx = edx;
          ebx = ebx;
          esp = omega (arith, s₁₅.height);
          ebp = ebp;
          esi = esi;
          edi = edi;
          eip = eip;
          cs = ap u16 cs ∙ omega (arith, fit.cs);
          eflags = eflags;
          ds = segment_low;
          es = segment_low;
          fs = segment_low;
          gs = segment_low;
        },
        ap (λ f. with_flags f m₂.kernel) eflags,
      )
