-- ===== src/Main/Tests.antt =====
-- `kmain` and a wait on a small board.
use mal_os.Prelude.{ℕ, ◌+◌, ◌≡◌, refl, u8, u32, Option, List, [], ◌++◌, map, codes, arith}
use mal_os.Kernel.State.{Kernel}
use mal_os.Kernel.Tty.Sample.{full, hi}
use mal_os.Kernel.Tty.Screen.{blank, type_text, view}
use mal_os.Libc.Itoa.RoundTrip.{IsNotation}
use mal_os.Libc.Printf.{say}
use mal_os.Interrupts.Isr.{halted, are_interrupts_enabled}
use mal_os.Interrupts.Isr.Messages.{received}
use mal_os.Interrupts.Stubs.Sample.{stub, stub-lt}
use mal_os.Main.{forcing_text, sleep_on, kmain}
use mal_os.Main.Sample.{
  switched_on, ticking, ticking-IsTicking, Devices, board_ports, clock_pass, board,
}
use mal_os.Main.Board.{IsTicking}
use mal_os.Main.Wait.{Waits, sleep_on-Waits}
use mal_os.Main.Steps.{Goes-put_all, test_lines}
use mal_os.Pci.Present.{lines}
use mal_os.Libc.Printf.Prints.{say-render}
use mal_os.Libc.Printf.Render.{render_literal}
use mal_os.Main.Boot.{Detects}
use mal_os.Main.System.{Reach, start, later, colours, writes}
use mal_os.Main.Sound.{IsSound, Reach-IsSound}
use mal_os.Kernel.Tty.{terminal_setcolor, terminal_writestring}
use mal_os.Kernel.Vga.{red, black}
use mal_os.Kernel.Tty.Confined.{IsBytes}
use mal_os.Main.Forced.{kmain_lem}

abbrev print_cpu : Kernel Devices → Option (Kernel Devices)
print_cpu k = say board_ports (codes "CPU\n") [] k

abbrev cpu_text : List ℕ
cpu_text = codes "CPU\n"

print_cpu-Detects : Detects board print_cpu cpu_text
print_cpu-Detects k on small = Goes-put_all board cpu_text k _ on small (
    say-render board_ports cpu_text [] k cpu_text (render_literal cpu_text [] (ground arith))
      (ground arith))

kmain_lem_example :
    (k' : Kernel Devices) × (ds : List ℕ) × (kmain board_ports clock_pass
        (stub 0x1000)
        (stub 0x2000)
        0x3000
        print_cpu
        200
        switched_on
      ≡ halted k')
    × (k'.tick ≡ u32 (0 + 260))
    × IsNotation 16 8 0 ds
    × (view board.machine.crtc k'
        ≡ type_text 0x04 (map u8 (received ds (codes "Division by Zero")) ++ codes "caught!") (
            type_text 0x1F
              (cpu_text ++ (test_lines 50 0 ++ (lines board.functions ++ map u8 forcing_text)))
              (blank 0x1F)))
kmain_lem_example =
    kmain_lem board (stub 0x1000) (stub 0x2000) 0x3000 print_cpu cpu_text 200 switched_on
      (λ n. stub-lt 0x1000 n (omega arith)) (λ n. stub-lt 0x2000 n (omega arith)) (omega arith)
      print_cpu-Detects (omega arith) (omega arith)

-- The tick wraps around meanwhile.
sleep_on-Waits_example : Waits board 4 ticking (sleep_on board_ports clock_pass 20 200 ticking)
sleep_on-Waits_example =
    sleep_on-Waits board 20 200 ticking (omega arith) (omega arith) ticking-IsTicking (omega arith)

-- On the screen, with bytes in the memory.
abbrev working : Kernel Devices
working = record ticking { t_buff = 0xb8000; t_color = 0x1F }

working-IsTicking : IsTicking board working
unfolding are_interrupts_enabled
working-IsTicking = record { handler = refl; enabled = refl; frequency = refl }

full-IsBytes : IsBytes full.mem
full-IsBytes p = omega arith

working-IsSound : IsSound board working working
working-IsSound = record {
  on = omega arith;
  ticking = working-IsTicking;
  tick_lt = omega arith;
  color_lt = omega arith;
  buff = refl;
  bytes = full-IsBytes;
  outside = λ p out. refl;
}

-- Other colours, and a string.
abbrev written : Kernel Devices
written = terminal_setcolor board_ports red black working

wrote : Reach board_ports clock_pass working (terminal_writestring board_ports hi written)
wrote = later (later start (colours red black)) (writes hi)

Reach-IsSound_example : IsSound board working (terminal_writestring board_ports hi written)
Reach-IsSound_example =
    Reach-IsSound board working (terminal_writestring board_ports hi written) working-IsSound wrote
