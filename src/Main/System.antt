-- ===== src/Main/System.antt =====
-- The kernel at work: whatever calls its code makes of the terminal, in whatever order, with the
-- timer's interrupts between them.
use mal_os.Prelude.{ℕ, ◌≡◌, ◌≢◌, Bool, some, List, u8}
use mal_os.Kernel.Ports.{Ports}
use mal_os.Kernel.State.{Kernel, Handler}
use mal_os.Kernel.Vga.{VgaColor}
use mal_os.Kernel.Tty.{terminal_putchar, terminal_writestring, terminal_setcolor}
use mal_os.Libc.Printf.{Arg, printf}
use mal_os.Interrupts.Isr.{register_interrupt_handler}
use mal_os.Main.{moment}

module _ {Dev : Type 0} (hw : Ports Dev) (pass : Dev → Bool × Dev) where
  -- One call, or the time between two. The timer's handler is not replaced.
  pub data Step (k : Kernel Dev) : Kernel Dev → Type 0 where
    prints :
        {n : ℕ} {k' : Kernel Dev} (format : List ℕ) (args : List Arg)
        → printf hw format args k ≡ some (n, k')
        → Step k k'
    puts_char : (c : ℕ) → Step k (terminal_putchar hw c k)
    writes : (s : List ℕ) → Step k (terminal_writestring hw s k)
    colours : (fg bg : VgaColor) → Step k (terminal_setcolor hw fg bg k)
    registers :
        (n : ℕ) (handler : Handler) → u8 n ≢ 32 → Step k (register_interrupt_handler n handler k)
    passes : {k' : Kernel Dev} → moment hw pass k ≡ some k' → Step k k'

  -- What the kernel can come to from `k₀`.
  pub data Reach (k₀ : Kernel Dev) : Kernel Dev → Type 0 where
    start : Reach k₀ k₀
    later : {k k' : Kernel Dev} → Reach k₀ k → Step k k' → Reach k₀ k'
