-- ===== src/Interrupts/Stubs/Entry.antt =====
-- What stands on the stack when the C function is called.
use mal_os.Prelude.{
  ℕ, ◌+◌, ◌-◌, ◌*◌, ◌/◌, ◌^◌, ◌≤◌, ◌<◌, ◌≡◌, refl, Option, none, some, true, false, ltb,
  if◌then◌else◌, subst, bit_and, not32, List, [], ◌∷◌, length, arith,
}
use mal_os.Libc.Memory.{Mem}
use mal_os.Kernel.Processor.{Machine, flag_if, with_flags, push, run, exec}
use mal_os.Kernel.Processor.Stack.{IsStack, empty-IsStack, push-IsStack, pushed_by}
use mal_os.Interrupts.Stubs.{save_context, pushes_error, entered, entry_flags, isr_stub, irq_stub}

-- An error code, where the stub expects one.
abbrev pub IsError : ℕ → Option ℕ → Type 0
IsError n none = pushes_error n ≡ false
IsError n (some code) = (pushes_error n ≡ true) × (code < 2 ^ 32)

abbrev pub error_code : Option ℕ → ℕ
error_code none = 0
error_code (some code) = code

byte_lem : (n : ℕ) → n < 128 → (if ltb n 128 then n else n + 2 ^ 32 - 2 ^ 8) ≡ n
byte_lem n h = ground arith

module _ {Dev : Type 0} where
  -- The registers that save_context pushes are words.
  pub record IsSized (m : Machine Dev) : Type 0 where
    pub eax : m.eax < 2 ^ 32
    pub ecx : m.ecx < 2 ^ 32
    pub edx : m.edx < 2 ^ 32
    pub ebx : m.ebx < 2 ^ 32
    pub esp : m.esp < 2 ^ 32
    pub ebp : m.ebp < 2 ^ 32
    pub esi : m.esi < 2 ^ 32
    pub edi : m.edi < 2 ^ 32
    pub ds : m.ds < 2 ^ 16

  abbrev pub Has : Mem → ℕ → List ℕ → Machine Dev → Type 0
  Has before bottom ws m = IsStack before bottom ws m.esp m.kernel.mem

  -- What save_context pushes, the argument of the C function less.
  abbrev pub context : ℕ → Machine Dev → List ℕ → List ℕ
  context esp m ws =
      (m.eax / 2 ^ 16 * 2 ^ 16 + m.ds)
      ∷ m.edi
      ∷ m.esi
      ∷ m.ebp
      ∷ esp
      ∷ m.ebx
      ∷ m.edx
      ∷ m.ecx
      ∷ m.eax
      ∷ ws

  save_context-Has :
      (before : Mem) (bottom : ℕ) (ws : List ℕ) (m : Machine Dev)
      → IsSized m
      → bottom < 2 ^ 32
      → 68 ≤ bottom
      → length ws ≤ 5
      → Has before bottom ws m
      → let m₁ = run save_context m in Has before bottom ((m₁.esp + 4) ∷ context m.esp m ws) m₁
  unfolding run exec push
  save_context-Has before bottom ws m sized hb room short stack =
      let s₁ = push-IsStack m.eax ws _ sized.eax hb room (omega arith) stack in
      let s₂ = push-IsStack m.ecx _ _ sized.ecx hb room (omega arith) s₁ in
      let s₃ = push-IsStack m.edx _ _ sized.edx hb room (omega arith) s₂ in
      let s₄ = push-IsStack m.ebx _ _ sized.ebx hb room (omega arith) s₃ in
      let s₅ = push-IsStack m.esp _ _ sized.esp hb room (omega arith) s₄ in
      let s₆ = push-IsStack m.ebp _ _ sized.ebp hb room (omega arith) s₅ in
      let s₇ = push-IsStack m.esi _ _ sized.esi hb room (omega arith) s₆ in
      let s₈ = push-IsStack m.edi _ _ sized.edi hb room (omega arith) s₇ in
      let s₉ =
        push-IsStack (m.eax / 2 ^ 16 * 2 ^ 16 + m.ds) _ _ (omega (arith, sized.eax, sized.ds)) hb
          room (omega arith) s₈ in
      let e₉ = pushed_by 9 m.esp in
      let s₁₀ = push-IsStack e₉ _ _ (omega (arith, s₉.height)) hb room (omega arith) s₉ in
      let m₁ = run save_context m in
      subst (λ p. Has before bottom (p ∷ context m.esp m ws) m₁) (omega (arith, s₉.height)) s₁₀

  -- The same for what the processor pushes, and there is room on the stack.
  pub record IsInterruptible (m : Machine Dev) : Type 0 where
    pub sized : IsSized m
    pub eip : m.eip < 2 ^ 32
    pub cs : m.cs < 2 ^ 16
    pub eflags : m.kernel.eflags < 2 ^ 32
    pub room : 68 ≤ m.esp

  -- What the processor and the stub push, from the vector's number on.
  abbrev pub cause : ℕ → ℕ → Machine Dev → List ℕ
  cause n code m = n ∷ code ∷ m.eip ∷ m.cs ∷ m.kernel.eflags ∷ []

  -- The machine at the jump of a stub.
  unfoldable pub arrived : ℕ → ℕ → Machine Dev → Machine Dev
  arrived n code m =
      let gate = m.kernel.idt n in
      let m₁ = push n (push code (push m.eip (push m.cs (push m.kernel.eflags m)))) in
      let flags = bit_and (bit_and m.kernel.eflags (not32 entry_flags)) (not32 flag_if) in
      record m₁ {
        eip = gate.base_hi * 2 ^ 16 + gate.base_lo;
        cs = gate.sel;
        kernel = with_flags flags m₁.kernel;
      }

  -- Every stub of an exception comes there.
  pub isr_stub-arrived :
      (n : ℕ) (error : Option ℕ) (m : Machine Dev)
      → n < 128
      → IsError n error
      → run (isr_stub n) (entered n error m) ≡ arrived n (error_code error) m
  unfolding run exec push entered arrived
  isr_stub-arrived n none m h e = rw (e, byte_lem n h) refl
  isr_stub-arrived n (some code) m h (e, _) = rw (e, byte_lem n h) refl

  pub irq_stub-arrived :
      (n : ℕ) (m : Machine Dev)
      → n < 16
      → run (irq_stub n) (entered (n + 32) none m) ≡ arrived (n + 32) 0 m
  unfolding run exec push entered arrived
  irq_stub-arrived n m h = rw (byte_lem (n + 32) (omega arith)) refl

  -- The stack at the call, of a machine `m` that was interrupted.
  abbrev pub Saved : ℕ → ℕ → Machine Dev → Machine Dev → Type 0
  Saved n code m m₁ =
      Has m.kernel.mem m.esp ((m₁.esp + 4) ∷ context (m.esp - 20) m (cause n code m)) m₁

  pub arrived-Saved :
      (n code : ℕ) (m : Machine Dev)
      → n < 128
      → code < 2 ^ 32
      → IsInterruptible m
      → Saved n code m (run save_context (arrived n code m))
  unfolding arrived push
  arrived-Saved n code m h hc fit =
      let s₀ = empty-IsStack m.kernel.mem m.esp in
      let hb = fit.sized.esp in
      let s₁ = push-IsStack m.kernel.eflags [] _ fit.eflags hb fit.room (omega arith) s₀ in
      let s₂ = push-IsStack m.cs _ _ (omega (arith, fit.cs)) hb fit.room (omega arith) s₁ in
      let s₃ = push-IsStack m.eip _ _ fit.eip hb fit.room (omega arith) s₂ in
      let s₄ = push-IsStack code _ _ hc hb fit.room (omega arith) s₃ in
      let s₅ = push-IsStack n _ _ (omega arith) hb fit.room (omega arith) s₄ in
      let m₁ = run save_context (arrived n code m) in
      subst (λ e. Has m.kernel.mem m.esp ((m₁.esp + 4) ∷ context e m (cause n code m)) m₁)
        {x = pushed_by 5 m.esp} (omega (arith, s₅.height))
        (save_context-Has m.kernel.mem m.esp (cause n code m) (arrived n code m)
          (record {
            eax = fit.sized.eax;
            ecx = fit.sized.ecx;
            edx = fit.sized.edx;
            ebx = fit.sized.ebx;
            esp = omega (arith, s₅.height);
            ebp = fit.sized.ebp;
            esi = fit.sized.esi;
            edi = fit.sized.edi;
            ds = fit.sized.ds;
          })
          hb fit.room (omega arith) s₅)
