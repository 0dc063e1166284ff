-- ===== src/Main/Board.antt =====
-- What `kmain` expects of the board, none of which is part of the repository, and one interrupt.
use mal_os.Prelude.{
  List, ℕ, ◌+◌, ◌≤◌, ◌<◌, ◌≡◌, ◌≢◌, refl, ◌∙◌, ap, Bool, true, false, u32, some, length, arith, sym,
}
use mal_os.Libc.Memory.{Mem}
use mal_os.Kernel.Ports.{Ports}
use mal_os.Kernel.State.{Kernel, timer_callback}
use mal_os.Kernel.Tty.Screen.{Screen, view, cells_of}
use mal_os.Kernel.Tty.Cursor.{cursor}
use mal_os.Interrupts.Isr.{are_interrupts_enabled, irq_handler, send_eoi, call_handler}
use mal_os.Interrupts.Isr.Pic.{IsPics}
use mal_os.Interrupts.Timer.Pit.{IsPit}
use mal_os.Pci.{DeviceDescriptor}
use mal_os.Pci.Machine.{IsMachine}
use mal_os.Pci.Present.{buses_present}
use mal_os.Main.{timer_request, moment}

-- `due` counts the reads of `tick` until the timer raises its request, which it does again and again,
-- each time within `period` reads. The cursor is not moved by the timer or the interrupt controller,
-- and the same functions are always on the buses, no more than 15.
pub record IsBoard {Dev : Type 0} (hw : Ports Dev) (pass : Dev → Bool × Dev) : Type 0 where
  pub machine : IsMachine hw
  pub pics : IsPics hw
  pub pit : IsPit hw
  pub due : Dev → ℕ
  pub period : ℕ
  pub due_lt : (d : Dev) → due d < period
  pub waits :
      (d : Dev)
      → due d ≢ 0
      → let (raised, d') = pass d in
        (raised ≡ false) × (due d' + 1 ≡ due d) × (pics.master_serves d' ≡ pics.master_serves d)
  pub raises :
      (d : Dev)
      → due d ≡ 0
      → let (raised, d') = pass d in
        (raised ≡ true) × (pics.master_serves d' ≡ pics.master_serves d + 1)
  pub pass_keeps :
      (d : Dev)
      → let d' = (pass d).1 in
        (machine.crtc.high d' ≡ machine.crtc.high d) × (machine.crtc.low d' ≡ machine.crtc.low d)
  pub eoi_keeps :
      (d : Dev)
      → let d' = hw.out8 0x20 0x20 d in
        (machine.crtc.high d' ≡ machine.crtc.high d) × (machine.crtc.low d' ≡ machine.crtc.low d)
  pub functions : List DeviceDescriptor
  pub functions_present : (d : Dev) → buses_present 8 (machine.bridge.config d) 0 ≡ functions
  pub few_functions : length functions ≤ 15

module _ {Dev : Type 0} where
  -- All but the devices, the memory and the tick is as before.
  abbrev pub Runs : Kernel Dev → Kernel Dev → Type 0
  Runs k k' = k' ≡ record k { dev = k'.dev; mem = k'.mem; tick = k'.tick }

  pub Runs-trans : (k k₁ k₂ : Kernel Dev) → Runs k k₁ → Runs k₁ k₂ → Runs k k₂
  Runs-trans k k₁ k₂ r s =
      s ∙ ap (λ (z : Kernel Dev). record z { dev = k₂.dev; mem = k₂.mem; tick = k₂.tick }) r

  -- What `Runs` is for a step that leaves the tick alone.
  pub Runs-screen_only :
      (k k' : Kernel Dev) → k' ≡ record k { dev = k'.dev; mem = k'.mem } → Runs k k'
  Runs-screen_only k k' e = e ∙ ap (λ t. with_tick t) (sym (ap (λ z. z.tick) e))
    where
      with_tick : ℕ → Kernel Dev
      with_tick t = record k { dev = k'.dev; mem = k'.mem; tick = t }

  -- All but the devices and the tick is as before.
  abbrev pub Ticks : Kernel Dev → Kernel Dev → Type 0
  Ticks k k' = k' ≡ record k { dev = k'.dev; tick = k'.tick }

  pub Ticks-trans : (k k₁ k₂ : Kernel Dev) → Ticks k k₁ → Ticks k₁ k₂ → Ticks k k₂
  Ticks-trans k k₁ k₂ r s = s ∙ ap (λ (z : Kernel Dev). record z { dev = k₂.dev; tick = k₂.tick }) r

  pub Runs-Ticks : (k k' : Kernel Dev) → Ticks k k' → Runs k k'
  Runs-Ticks k k' e = e ∙ ap (λ m. with_mem m) (sym (ap (λ z. z.mem) e))
    where
      with_mem : Mem → Kernel Dev
      with_mem m = record k { dev = k'.dev; mem = m; tick = k'.tick }

module _ {Dev : Type 0} (hw : Ports Dev) where
  -- The timer's interrupt.
  pub irq_handler-timer :
      (k : Kernel Dev)
      → k.interrupt_handlers 32 ≡ some timer_callback
      → irq_handler hw timer_request k
        ≡ some (record k { dev = hw.out8 0x20 0x20 k.dev; tick = u32 (k.tick + 1) })
  unfolding irq_handler send_eoi call_handler
  irq_handler-timer k e = rw e refl

module _ {Dev : Type 0} {hw : Ports Dev} {pass : Dev → Bool × Dev} (board : IsBoard hw pass) where
  -- The timer's interrupts are on and counted.
  pub record IsTicking (k : Kernel Dev) : Type 0 where
    pub handler : k.interrupt_handlers 32 ≡ some timer_callback
    pub enabled : are_interrupts_enabled k ≡ true
    pub frequency : k.pit_frequency ≡ 50

  pub IsTicking-Runs : (k k' : Kernel Dev) → Runs k k' → IsTicking k → IsTicking k'
  unfolding are_interrupts_enabled
  IsTicking-Runs k k' r on = record {
    handler = ap (λ z. z.interrupt_handlers 32) r ∙ on.handler;
    enabled = ap are_interrupts_enabled r ∙ on.enabled;
    frequency = ap (λ z. z.pit_frequency) r ∙ on.frequency;
  }

  -- The cursor does not move, and no request is left in service.
  abbrev pub Holds : Kernel Dev → Kernel Dev → Type 0
  Holds k k' =
      (cursor board.machine.crtc k' ≡ cursor board.machine.crtc k)
      × (board.pics.master_serves k'.dev ≡ board.pics.master_serves k.dev)

  -- The timer is not due yet.
  pub moment-waits :
      (k : Kernel Dev)
      → board.due k.dev ≢ 0
      → let k₁ : Kernel Dev = record k { dev = (pass k.dev).1 } in
        (moment hw pass k ≡ some k₁) × (board.due k₁.dev + 1 ≡ board.due k.dev) × Holds k k₁
  unfolding moment
  moment-waits k not_due =
      let (quiet, less, held) = board.waits k.dev not_due in
      (rw quiet refl, less, (omega (arith, board.pass_keeps k.dev), held))

  -- It is due: its interrupt counts a tick, and is acknowledged.
  pub moment-raises :
      (k : Kernel Dev)
      → board.due k.dev ≡ 0
      → IsTicking k
      → let k₁ : Kernel Dev = record k {
        dev = hw.out8 0x20 0x20 (pass k.dev).1;
        tick = u32 (k.tick + 1);
      } in
        (moment hw pass k ≡ some k₁) × Holds k k₁
  unfolding moment
  moment-raises k due on =
      let d = (pass k.dev).1 in
      let (raised, served) = board.raises k.dev due in
      let acknowledged = board.pics.eoi_master d in
      (
        rw (raised, on.enabled) (irq_handler-timer hw (record k { dev = d }) on.handler),
        (
          omega (arith, board.pass_keeps k.dev, board.eoi_keeps d),
          omega (arith, served, acknowledged),
        ),
      )

  pub view-Ticks :
      (k k' : Kernel Dev)
      → Ticks k k'
      → cursor board.machine.crtc k' ≡ cursor board.machine.crtc k
      → view board.machine.crtc k' ≡ view board.machine.crtc k
  view-Ticks k k' e at = ap (view board.machine.crtc) e ∙ ap (λ n. at_screen n) at
    where
      at_screen : ℕ → Screen
      at_screen n = record { cells = cells_of k k.mem; at = n }
