-- ===== src/Main/Interrupted/Follow.antt =====
-- A moment on the processor, next to a moment of Main.
use mal_os.Prelude.{
  ℕ, ◌+◌, ◌≤◌, ◌<◌, ◌≡◌, refl, ◌∙◌, ap, sym, subst, ◌⊎◌, inl, inr, Bool, true, false, ◌&&◌, u32,
  Option, some, Bool-cases, arith,
}
use mathlib.Core.Option.{some-injective}
use mal_os.Libc.Memory.{Mem}
use mal_os.Kernel.Ports.{Ports}
use mal_os.Kernel.State.{Kernel, timer_callback}
use mal_os.Kernel.Processor.{Machine}
use mal_os.Interrupts.Isr.{are_interrupts_enabled}
use mal_os.Interrupts.Stubs.{Stub}
use mal_os.Interrupts.Stubs.Entry.{IsInterruptible}
use mal_os.Interrupts.Stubs.Return.{IsRestored}
use mal_os.Interrupts.Stubs.Deliver.{IsLinked, IsInstalled, interrupt-request}
use mal_os.Main.{moment}
use mal_os.Main.Board.{irq_handler-timer}
use mal_os.Main.Interrupted.{IsUndisturbed, resumed, machine_moment}

module _ {Dev : Type 0} where
  pub IsUndisturbed-trans :
      (m m₁ m₂ : Machine Dev) → IsUndisturbed m m₁ → IsUndisturbed m₁ m₂ → IsUndisturbed m m₂
  IsUndisturbed-trans m m₁ m₂ u v = record {
    eax = v.eax ∙ u.eax;
    ecx = v.ecx ∙ u.ecx;
    edx = v.edx ∙ u.edx;
    ebx = v.ebx ∙ u.ebx;
    esp = v.esp ∙ u.esp;
    ebp = v.ebp ∙ u.ebp;
    esi = v.esi ∙ u.esi;
    edi = v.edi ∙ u.edi;
    eip = v.eip ∙ u.eip;
    cs = v.cs ∙ u.cs;
    ds = v.ds ∙ u.ds;
    eflags = v.eflags ∙ u.eflags;
    outside = λ p out.
        v.outside p (subst (λ e. (e ≤ p) ⊎ (p + 68 < e)) (sym u.esp) out) ∙ u.outside p out;
  }

  IsUndisturbed-IsInterruptible :
      (m m' : Machine Dev) → IsUndisturbed m m' → IsInterruptible m → IsInterruptible m'
  IsUndisturbed-IsInterruptible m m' u fit = record {
    sized = record {
      eax = omega (arith, u.eax, fit.sized.eax);
      ecx = omega (arith, u.ecx, fit.sized.ecx);
      edx = omega (arith, u.edx, fit.sized.edx);
      ebx = omega (arith, u.ebx, fit.sized.ebx);
      esp = omega (arith, u.esp, fit.sized.esp);
      ebp = omega (arith, u.ebp, fit.sized.ebp);
      esi = omega (arith, u.esi, fit.sized.esi);
      edi = omega (arith, u.edi, fit.sized.edi);
      ds = omega (arith, u.ds, fit.sized.ds);
    };
    eip = omega (arith, u.eip, fit.eip);
    cs = omega (arith, u.cs, fit.cs);
    eflags = omega (arith, u.eflags, fit.eflags);
    room = omega (arith, u.esp, fit.room);
  }

  IsRestored-IsUndisturbed :
      (m m' : Machine Dev)
      → IsRestored m m'
      → ((p : ℕ) → (m.esp ≤ p) ⊎ (p + 68 < m.esp) → m'.kernel.mem p ≡ m.kernel.mem p)
      → IsUndisturbed m m'
  IsRestored-IsUndisturbed m m' r outside = record {
    eax = r.eax;
    ecx = r.ecx;
    edx = r.edx;
    ebx = r.ebx;
    esp = r.esp;
    ebp = r.ebp;
    esi = r.esi;
    edi = r.edi;
    eip = r.eip;
    cs = r.cs;
    ds = r.ds;
    eflags = r.eflags;
    outside = outside;
  }

  abbrev with_dev : Dev → Machine Dev → Machine Dev
  with_dev d m = record m { kernel = record m.kernel { dev = d } }

  pub IsUndisturbed-dev : (m : Machine Dev) (d : Dev) → IsUndisturbed m (with_dev d m)
  IsUndisturbed-dev m d = record {
    eax = refl;
    ecx = refl;
    edx = refl;
    ebx = refl;
    esp = refl;
    ebp = refl;
    esi = refl;
    edi = refl;
    eip = refl;
    cs = refl;
    ds = refl;
    eflags = refl;
    outside = λ p out. refl;
  }

  -- The kernels are the same but for the memory, and the timer's interrupt can come.
  pub record IsFollowing (isr irq : ℕ → ℕ) (k : Kernel Dev) (m : Machine Dev) : Type 0 where
    pub same : m.kernel ≡ record k { mem = m.kernel.mem }
    pub fit : IsInterruptible m
    pub installed : IsInstalled isr irq m.kernel
    pub timed : m.kernel.interrupt_handlers 32 ≡ some timer_callback

module _ {Dev : Type 0} (hw : Ports Dev) (pass : Dev → Bool × Dev)
    (scratch : Machine Dev → ℕ × ℕ × ℕ) (isr irq : ℕ → ℕ) (code : ℕ → Option Stub) where
  -- The kernel after a moment with an interrupt, and after one without.
  abbrev struck : Kernel Dev → Kernel Dev
  struck k = record k { dev = hw.out8 0x20 0x20 (pass k.dev).1; tick = u32 (k.tick + 1) }

  abbrev passed : Kernel Dev → Kernel Dev
  passed k = record k { dev = (pass k.dev).1 }

  abbrev strikes : Kernel Dev → Bool
  strikes k = (pass k.dev).0 && are_interrupts_enabled k

  moment-struck :
      (k : Kernel Dev)
      → strikes k ≡ true
      → k.interrupt_handlers 32 ≡ some timer_callback
      → moment hw pass k ≡ some (struck k)
  unfolding moment
  moment-struck k raised timed = rw raised (irq_handler-timer hw (passed k) timed)

  moment-passed : (k : Kernel Dev) → strikes k ≡ false → moment hw pass k ≡ some (passed k)
  unfolding moment
  moment-passed k quiet = rw quiet refl

  strikes-mem : (k : Kernel Dev) (f : Mem) → strikes (record k { mem = f }) ≡ strikes k
  unfolding are_interrupts_enabled
  strikes-mem k f = refl

  machine_moment-struck :
      (m : Machine Dev)
      → strikes m.kernel ≡ true
      → IsLinked isr irq code
      → IsInterruptible m
      → IsInstalled isr irq m.kernel
      → m.kernel.interrupt_handlers 32 ≡ some timer_callback
      → (m' : Machine Dev) × (resumed (machine_moment hw pass scratch code m) ≡ some m')
        × IsUndisturbed m m'
        × (m'.kernel ≡ record (struck m.kernel) { mem = m'.kernel.mem })
  unfolding machine_moment
  machine_moment-struck m raised linked fit installed timed =
      let d = (pass m.kernel.dev).1 in
      let m₁ = with_dev d m in
      let (m', k', e, handled, restored, only, outside) =
        interrupt-request hw scratch isr irq code 0 m₁ (omega arith) linked
          (record {
            limit = installed.limit;
            exceptions = installed.exceptions;
            requests = installed.requests;
          })
          (IsUndisturbed-IsInterruptible m m₁ (IsUndisturbed-dev m d) fit) (inr timed) in
      let counted : k' ≡ struck m.kernel =
        some-injective _ _ (sym handled ∙ irq_handler-timer hw (passed m.kernel) timed) in
      let at_mem : Kernel Dev → Kernel Dev = λ z. record z { mem = m'.kernel.mem } in
      (
        m',
        rw raised (ap resumed e),
        IsUndisturbed-trans m m₁ m' (IsUndisturbed-dev m d)
            (IsRestored-IsUndisturbed m₁ m' restored outside),
        only ∙ ap at_mem counted,
      )

  machine_moment-passed :
      (m : Machine Dev)
      → strikes m.kernel ≡ false
      → resumed (machine_moment hw pass scratch code m) ≡ some (with_dev (pass m.kernel.dev).1 m)
  unfolding machine_moment
  machine_moment-passed m quiet = rw quiet refl

  -- The table and the handlers stay where they are.
  IsInstalled-same :
      (k k' : Kernel Dev) (d : Dev) (f : Mem) (t : ℕ)
      → k' ≡ record k { dev = d; mem = f; tick = t }
      → IsInstalled isr irq k
      → IsInstalled isr irq k'
  IsInstalled-same k k' d f t e installed = subst (IsInstalled isr irq) (sym e) (record {
    limit = installed.limit;
    exceptions = installed.exceptions;
    requests = installed.requests;
  })

  -- A moment of both.
  pub moment-IsFollowing :
      (k : Kernel Dev) (m : Machine Dev)
      → IsLinked isr irq code
      → IsFollowing isr irq k m
      → (k₁ : Kernel Dev) × (m₁ : Machine Dev) × (moment hw pass k ≡ some k₁)
        × (resumed (machine_moment hw pass scratch code m) ≡ some m₁)
        × IsUndisturbed m m₁
        × IsFollowing isr irq k₁ m₁
  moment-IsFollowing k m linked now =
      let same_strikes = ap strikes now.same ∙ strikes-mem k m.kernel.mem in
      let timed = sym (ap (λ z. z.interrupt_handlers 32) now.same) ∙ now.timed in
      elim (Bool-cases (strikes k)) [
        | inl raised ↦
            let (m', e, held, only) =
              machine_moment-struck m (same_strikes ∙ raised) linked now.fit now.installed
                now.timed in
            let at_mem : Kernel Dev → Kernel Dev = λ z. record (struck z) { mem = m'.kernel.mem } in
            (
              struck k,
              m',
              moment-struck k raised timed,
              e,
              held,
              record {
                same = only ∙ ap at_mem now.same;
                fit = IsUndisturbed-IsInterruptible m m' held now.fit;
                installed = IsInstalled-same m.kernel m'.kernel _ _ _ only now.installed;
                timed = ap (λ z. z.interrupt_handlers 32) only ∙ now.timed;
              },
            )
        | inr quiet ↦
            let m' = with_dev (pass m.kernel.dev).1 m in
            let held = IsUndisturbed-dev m (pass m.kernel.dev).1 in
            (
              passed k,
              m',
              moment-passed k quiet,
              machine_moment-passed m (same_strikes ∙ quiet),
              held,
              record {
                same = ap passed now.same;
                fit = IsUndisturbed-IsInterruptible m m' held now.fit;
                installed = IsInstalled-same m.kernel m'.kernel _ _ _ refl now.installed;
                timed = now.timed;
              },
            )
      ]
