-- ===== src/Kernel/Cpu.antt =====
-- The processor's registers, BIOS/kernel/hardware.c: the identification, the counter of clock ticks,
-- the control registers and the model specific registers. The processor is not part of the
-- repository: `Cpu` stands for its instructions. What a C function stores through a pointer is its
-- result, and `none` is an exception that the instruction raises.
mod Tests
use mal_os.Prelude.{ℕ, ◌+◌, ◌*◌, ◌^◌, u32, Option, none, some, List, [], ◌∷◌, ◌>>=◌}

-- The four results of `cpuid` are `eax`, `ebx`, `ecx` and `edx`. A double word of 64 bits is `eax` with
-- `edx` above it.
pub record Cpu (State : Type 0) : Type 0 where
  pub identify : ℕ → State → ℕ × ℕ × ℕ × ℕ
  pub time_stamp : State → (ℕ × ℕ) × State
  pub control : ℕ → State → Option ℕ
  pub write_specific : ℕ → ℕ → ℕ → State → Option State
  pub read_specific : ℕ → State → Option (ℕ × ℕ)
  pub forget_page : ℕ → State → State

module _ {State : Type 0} (cpu : Cpu State) where
  -- `*a` and `*d`.
  unfoldable pub cpuid : ℕ → State → ℕ × ℕ
  cpuid code s = let (a, b, c, d) = cpu.identify (u32 code) s in (u32 a, u32 d)

  -- The result, and the array `where`.
  unfoldable pub cpuid_string : ℕ → State → ℕ × List ℕ
  cpuid_string code s =
      let (a, b, c, d) = cpu.identify (u32 code) s in (u32 a, u32 a ∷ u32 b ∷ u32 c ∷ u32 d ∷ [])

  unfoldable pub rdtsc : State → ℕ × State
  rdtsc s = let ((a, d), s₁) = cpu.time_stamp s in (u32 d * 2 ^ 32 + u32 a, s₁)

  -- `read_cr0` to `read_cr8`, each of which names its register.
  unfoldable pub read_cr : ℕ → State → Option ℕ
  read_cr n s = do val ← cpu.control n s; some (u32 val)

  unfoldable pub wrmsr : ℕ → ℕ → ℕ → State → Option State
  wrmsr msr lo hi s = cpu.write_specific (u32 msr) (u32 lo) (u32 hi) s

  -- `*lo` and `*hi`.
  unfoldable pub rdmsr : ℕ → State → Option (ℕ × ℕ)
  rdmsr msr s = do (lo, hi) ← cpu.read_specific (u32 msr) s; some (u32 lo, u32 hi)

  unfoldable pub invlpg : ℕ → State → State
  invlpg m s = cpu.forget_page (u32 m) s
