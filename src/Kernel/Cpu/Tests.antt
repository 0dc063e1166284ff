-- ===== src/Kernel/Cpu/Tests.antt =====
-- A small processor: a counter, and one model specific register.
use mal_os.Prelude.{
  ℕ, ◌+◌, ◌/◌, ◌%◌, ◌^◌, ◌*◌, ◌≡◌, refl, ◌==◌, ◌||◌, leb, if◌then◌else◌, none, some, ◌>>=◌,
}
use mal_os.Kernel.Cpu.{Cpu, cpuid_string, rdtsc, read_cr, wrmsr, rdmsr}

record State : Type 0 where
  ticks : ℕ
  specific : ℕ

abbrev some_cpu : Cpu State
some_cpu = record {
  identify = λ code s. (1, 0x756e6547, 0x6c65746e, 0x49656e69);
  time_stamp = λ s. ((s.ticks % 2 ^ 32, s.ticks / 2 ^ 32), record s { ticks = s.ticks + 9 });
  control = λ n s. if n == 1 || leb 5 n then none else some n;
  write_specific =
      λ msr a d s. if msr == 0x1B then some (record s { specific = d * 2 ^ 32 + a }) else none;
  read_specific =
      λ msr s. if msr == 0x1B then some (s.specific % 2 ^ 32, s.specific / 2 ^ 32) else none;
  forget_page = λ m s. s;
}

abbrev running : State
running = record { ticks = 2 ^ 33 + 5; specific = 0 }

counts : rdtsc some_cpu running ≡ (2 ^ 33 + 5, record running { ticks = 2 ^ 33 + 14 })
unfolding rdtsc
counts = refl

identified : (cpuid_string some_cpu 0 running).0 ≡ 1
unfolding cpuid_string
identified = refl

reserved : read_cr some_cpu 5 running ≡ none
unfolding read_cr
reserved = refl

stored : (wrmsr some_cpu 0x1B 2 1 running >>= λ s. rdmsr some_cpu 0x1B s) ≡ some (2, 1)
unfolding wrmsr rdmsr
stored = refl
