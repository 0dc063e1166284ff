-- ===== src/Main/Sound.antt =====
-- What holds of the kernel whatever it has done.
use mal_os.Prelude.{
  ℕ, ◌^◌, ◌<◌, ◌≡◌, refl, ◌∙◌, ap, sym, subst, Bool, some, List, [], ◌∷◌, map, u8, arith,
}
use native.Mathlib.Decide.{ℕ_discrete}
use mathlib.Core.Option.{some-injective}
use mal_os.Kernel.Ports.{Ports}
use mal_os.Kernel.State.{Kernel}
use mal_os.Kernel.Vga.{VgaColor, vga_entry_color}
use mal_os.Kernel.Tty.{terminal_setcolor}
use mal_os.Kernel.Tty.Cursor.{cursor}
use mal_os.Kernel.Tty.Print.{terminal_putchar-Shows}
use mal_os.Kernel.Tty.Text.{
  Writes, Writes-screen_only, Writes-on_screen, terminal_writestring-Writes,
}
use mal_os.Kernel.Tty.Confined.{Outside, IsBytes, Writes-Outside, Writes-IsBytes}
use mal_os.Libc.Printf.Render.{put_all}
use mal_os.Libc.Printf.Writes.{put_all-Writes}
use mal_os.Libc.Printf.Puts.{printf-Puts}
use mal_os.Interrupts.Isr.{register_interrupt_handler, are_interrupts_enabled}
use mal_os.Main.{moment}
use mal_os.Main.Board.{
  IsBoard, IsTicking, IsTicking-Runs, Runs, Runs-screen_only, moment-waits, moment-raises,
}
use mal_os.Main.System.{
  Step, prints, puts_char, writes, colours, registers, passes, Reach, start, later,
}

module _ {Dev : Type 0} {hw : Ports Dev} {pass : Dev → Bool × Dev} (board : IsBoard hw pass) where
  -- The cursor is on the screen, the timer is ticking, the variables hold values of their types, and
  -- the memory holds bytes, which outside the screen and the line behind it are those of `k₀`.
  pub record IsSound (k₀ k : Kernel Dev) : Type 0 where
    pub on : cursor board.machine.crtc k < 2000
    pub ticking : IsTicking board k
    pub tick_lt : k.tick < 2 ^ 32
    pub color_lt : k.t_color < 2 ^ 8
    pub buff : k.t_buff ≡ k₀.t_buff
    pub bytes : IsBytes k.mem
    pub outside : (p : ℕ) → Outside k₀.t_buff p → k.mem p ≡ k₀.mem p

  -- Text that is written.
  IsSound-Writes :
      (k₀ k k' : Kernel Dev) (s : List ℕ)
      → IsSound k₀ k
      → Writes board.machine.crtc s k k'
      → IsSound k₀ k'
  IsSound-Writes k₀ k k' s sound w =
      let crtc = board.machine.crtc in
      let rest = Writes-screen_only crtc s k k' w in
      record {
        on = Writes-on_screen crtc s k k' sound.on w;
        ticking = IsTicking-Runs board k k' (Runs-screen_only k k' rest) sound.ticking;
        tick_lt = omega (arith, ap (λ z. z.tick) rest, sound.tick_lt);
        color_lt = omega (arith, ap (λ z. z.t_color) rest, sound.color_lt);
        buff = ap (λ z. z.t_buff) rest ∙ sound.buff;
        bytes = Writes-IsBytes crtc s k k' w sound.bytes;
        outside = λ p out.
            Writes-Outside crtc s k k' p sound.on w (subst (λ b. Outside b p) (sym sound.buff) out)
            ∙ sound.outside p out;
      }

  -- Nothing but the devices and the tick changes, and the cursor stays.
  IsSound-Runs :
      (k₀ k k' : Kernel Dev)
      → IsSound k₀ k
      → Runs k k'
      → k' ≡ record k { dev = k'.dev; tick = k'.tick }
      → k'.tick < 2 ^ 32
      → cursor board.machine.crtc k' ≡ cursor board.machine.crtc k
      → IsSound k₀ k'
  IsSound-Runs k₀ k k' sound runs rest small at = record {
    on = omega (arith, at, sound.on);
    ticking = IsTicking-Runs board k k' runs sound.ticking;
    tick_lt = small;
    color_lt = omega (arith, ap (λ z. z.t_color) rest, sound.color_lt);
    buff = ap (λ z. z.t_buff) rest ∙ sound.buff;
    bytes = λ p. omega (arith, ap (λ z. z.mem p) rest, sound.bytes p);
    outside = λ p out. ap (λ z. z.mem p) rest ∙ sound.outside p out;
  }

  color-lt : (fg bg : VgaColor) → vga_entry_color fg bg < 2 ^ 8
  unfolding vga_entry_color
  color-lt fg bg = omega arith

  -- The time between two calls.
  IsSound-moment :
      (k₀ k k' : Kernel Dev) → IsSound k₀ k → moment hw pass k ≡ some k' → IsSound k₀ k'
  IsSound-moment k₀ k k' sound e = elim (ℕ_discrete (board.due k.dev) 0) [
    | yes due ↦
        let (e₁, held) = moment-raises board k due sound.ticking in
        subst (IsSound k₀) (some-injective _ k' (sym e₁ ∙ e))
          (IsSound-Runs k₀ k _ sound refl refl (omega arith) held.0)
    | no not_due ↦
        let (e₁, _, held) = moment-waits board k not_due in
        subst (IsSound k₀) (some-injective _ k' (sym e₁ ∙ e))
          (IsSound-Runs k₀ k _ sound refl refl sound.tick_lt held.0)
  ]

  Step-IsSound : (k₀ k k' : Kernel Dev) → Step hw pass k k' → IsSound k₀ k → IsSound k₀ k'
  unfolding terminal_setcolor register_interrupt_handler are_interrupts_enabled
  Step-IsSound k₀ k k' (prints {n = n} format args e) sound =
      let (text, put) = printf-Puts hw format args n k k' e in
      subst (IsSound k₀) (sym put) (
        IsSound-Writes k₀ k (put_all hw text k) (map u8 text) sound
          (put_all-Writes board.machine.crtc text k sound.on))
  Step-IsSound k₀ k k' (puts_char c) sound =
      let shows = terminal_putchar-Shows hw board.machine.crtc c k sound.on in
      IsSound-Writes k₀ k _ (c ∷ []) sound (_, shows, (refl, refl))
  Step-IsSound k₀ k k' (writes s) sound =
      IsSound-Writes k₀ k _ s sound (terminal_writestring-Writes board.machine.crtc s k sound.on).0
  Step-IsSound k₀ k k' (colours fg bg) sound = record {
    on = sound.on;
    ticking = record {
      handler = sound.ticking.handler;
      enabled = sound.ticking.enabled;
      frequency = sound.ticking.frequency;
    };
    tick_lt = sound.tick_lt;
    color_lt = color-lt fg bg;
    buff = sound.buff;
    bytes = sound.bytes;
    outside = sound.outside;
  }
  Step-IsSound k₀ k k' (registers n handler other) sound = record {
    on = sound.on;
    ticking = record {
      handler = ground (arith, sound.ticking.handler);
      enabled = sound.ticking.enabled;
      frequency = sound.ticking.frequency;
    };
    tick_lt = sound.tick_lt;
    color_lt = sound.color_lt;
    buff = sound.buff;
    bytes = sound.bytes;
    outside = sound.outside;
  }
  Step-IsSound k₀ k k' (passes e) sound = IsSound-moment k₀ k k' sound e

  -- From a sound kernel on, whatever texts, characters, strings and formats the code prints, colours it
  -- sets and handlers but the timer's it registers, in whatever order and with the timer's interrupts
  -- between: the cursor is on the screen, the timer ticks, the tick and the colour keep their types,
  -- the memory holds bytes, and those outside the screen and the line behind it are as before.
  pub Reach-IsSound : (k₀ k : Kernel Dev) → IsSound k₀ k₀ → Reach hw pass k₀ k → IsSound k₀ k
  Reach-IsSound k₀ k sound start = sound
  Reach-IsSound k₀ k sound (later {k = k₁} reach step) =
      Step-IsSound k₀ k₁ k step (Reach-IsSound k₀ k₁ sound reach)
