-- ===== src/Interrupts/Timer/Tests.antt =====
-- The theorems on a small interval timer, and waits with concrete interrupts.
use mal_os.Prelude.{
  max, ltb, ℕ, ◌+◌, ◌-◌, ◌/◌, ◌%◌, ◌^◌, ◌≤◌, ◌<◌, ◌≡◌, refl, ◌==◌, if◌then◌else◌, arith, some, none,
  u32,
}
use mal_os.Kernel.State.{Kernel, timer_callback}
use mal_os.Interrupts.Idt.{gate}
use mal_os.Interrupts.Timer.{wait, sleep, init_timer, pic_internal_clk_hz}
use mal_os.Interrupts.Timer.Sleep.{sleep_lem}
use mal_os.Interrupts.Timer.Sample.{Channel, pit_ports, pit_ports-IsPit}
use mal_os.Interrupts.Timer.Pit.{nothing, full_count, init_timer_lem}

abbrev booted : Kernel Channel
booted = record {
  dev = record { state = nothing; byte = 0; reload = 0 };
  mem = λ p. 0;
  t_color = 0;
  t_err_color = 0;
  t_buff = 0;
  tick = 0;
  pit_frequency = 0;
  interrupt_handlers = λ n. none;
  idt = λ n. gate 0;
  idt_reg = record { limit = 0; base = 0 };
  idtr = record { limit = 0; base = 0 };
  eflags = 2;
}

init_timer_lem_example :
    (k' : Kernel Channel) × (init_timer pit_ports 50 booted ≡ some k')
    × (k'.dev.reload
        ≡ full_count
            (if ltb 50 19 then pic_internal_clk_hz / 50 % 2 ^ 16 else pic_internal_clk_hz / 50))
    × (k' ≡ record booted {
      dev = k'.dev;
      pit_frequency = 50;
      interrupt_handlers =
          λ i. if i == 32 then some timer_callback else booted.interrupt_handlers i;
    })
init_timer_lem_example = init_timer_lem pit_ports-IsPit 50 booted (omega arith)

-- An interrupt before the first read of the loop, and before every other read.
abbrev every_other : ℕ → ℕ
every_other t = (t + 2) / 2

abbrev near_the_wrap : ℕ → ℕ
near_the_wrap t = u32 (2 ^ 32 - 3 + every_other t)

-- 200 ms at 50 Hz are four ticks.
short_sleep : sleep 20 50 200 (2 ^ 32 - 3) near_the_wrap ≡ some 6
unfolding sleep wait
short_sleep = refl

sleep_lem_example :
    (n : ℕ) × (sleep 20 50 200 (2 ^ 32 - 3) near_the_wrap ≡ some n)
    × (every_other n ≡ max (200 / 50) (every_other 0))
    × (n ≤ 19)
    × ((s : ℕ) → s < n → every_other s < 200 / 50)
sleep_lem_example =
    sleep_lem 19 50 200 (2 ^ 32 - 3) every_other near_the_wrap (omega arith) (omega arith)
      (omega arith) (λ t. refl) (λ t. (omega arith, omega arith)) (omega arith) (omega arith)
