-- ===== src/Main/Wait.antt =====
-- `sleep` returns, as the timer keeps raising its request.
use mal_os.Prelude.{
  ℕ, zero, suc, ◌+◌, ◌-◌, ◌*◌, ◌/◌, ◌^◌, ◌≤◌, ◌<◌, ◌≡◌, refl, ◌∙◌, ap, sym, subst, Bool, true,
  false, ltb, if◌then◌else◌, u32, Option, none, some, arith, ◌==◌,
}
use mal_os.Kernel.Ports.{Ports}
use mal_os.Kernel.State.{Kernel}
use mal_os.Interrupts.Timer.{elapsed}
use mal_os.Interrupts.Timer.Sleep.{elapsed_lem}
use mal_os.Main.{moment, spin, sleep_on}
use mal_os.Main.Board.{
  IsBoard, Ticks, Runs-Ticks, Ticks-trans, IsTicking, IsTicking-Runs, Holds, moment-waits,
  moment-raises,
}

module _ {Dev : Type 0} {hw : Ports Dev} {pass : Dev → Bool × Dev} (board : IsBoard hw pass) where
  Holds-trans : (k k₁ k₂ : Kernel Dev) → Holds board k k₁ → Holds board k₁ k₂ → Holds board k k₂
  Holds-trans k k₁ k₂ (c, p) (d, q) = (d ∙ c, q ∙ p)

  spin_round :
      (fuel ref goal : ℕ) (k k₁ : Kernel Dev)
      → ltb (elapsed k.tick ref) goal ≡ true
      → moment hw pass k ≡ some k₁
      → spin hw pass (suc fuel) ref goal k ≡ spin hw pass fuel ref goal k₁
  unfolding spin
  spin_round fuel ref goal k k₁ more e = rw (spin, more, e) refl

  spin_end :
      (fuel ref goal : ℕ) (k : Kernel Dev)
      → ltb (elapsed k.tick ref) goal ≡ false
      → spin hw pass (suc fuel) ref goal k ≡ some k
  unfolding spin
  spin_end fuel ref goal k done = rw (spin, done) refl

  -- `n` rounds before the timer is due, and the one in which it is.
  until_tick :
      (n fuel ref goal : ℕ) (k : Kernel Dev)
      → board.due k.dev ≡ n
      → IsTicking board k
      → ltb (elapsed k.tick ref) goal ≡ true
      → (k₁ : Kernel Dev) × (spin hw pass (suc n + fuel) ref goal k ≡ spin hw pass fuel ref goal k₁)
        × Ticks k k₁
        × (k₁.tick ≡ u32 (k.tick + 1))
        × Holds board k k₁
  until_tick zero fuel ref goal k due on more =
      let (e, held) = moment-raises board k due on in
      (
        _,
        ap (λ n. spin hw pass n ref goal k) (omega arith) ∙ spin_round fuel ref goal k _ more e,
        refl,
        refl,
        held,
      )
  until_tick (suc n) fuel ref goal k due on more =
      let k' : Kernel Dev = record k { dev = (pass k.dev).1 } in
      let (e, less, held) = moment-waits board k (ground arith) in
      let (k₁, e', runs, ticked, held') =
        until_tick n fuel ref goal k' (omega arith) (IsTicking-Runs board k k' refl on) more in
      (
        k₁,
        ap (λ n. spin hw pass n ref goal k) (omega arith)
            ∙ spin_round (suc n + fuel) ref goal k k' more e
            ∙ e',
        Ticks-trans k k' k₁ refl runs,
        ticked,
        Holds-trans k k' k₁ held held',
      )

  -- The tick grows by `n`, the cursor does not move, and no request is left in service.
  abbrev pub Waits : ℕ → Kernel Dev → Option (Kernel Dev) → Type 0
  Waits n k out =
      (k' : Kernel Dev) × (out ≡ some k')
      × Ticks k k'
      × (k'.tick ≡ u32 (k.tick + n))
      × Holds board k k'

  Waits-after_tick :
      (n : ℕ) (k k₁ : Kernel Dev) (out out' : Option (Kernel Dev))
      → out ≡ out'
      → Ticks k k₁
      → k₁.tick ≡ u32 (k.tick + 1)
      → Holds board k k₁
      → Waits n k₁ out'
      → Waits (suc n) k out
  Waits-after_tick n k k₁ out out' e runs ticked held (k', e', runs', ticked', held') = (
    k',
    e ∙ e',
    Ticks-trans k k₁ k' runs runs',
    omega (arith, ticked, ticked'),
    Holds-trans k k₁ k' held held',
  )

  -- With `left` ticks to go.
  spin-Waits :
      (left fuel ref goal : ℕ) (k : Kernel Dev)
      → k.tick ≡ u32 (ref + (goal - left))
      → ref < 2 ^ 32
      → goal < 2 ^ 32
      → left ≤ goal
      → left * board.period < fuel
      → IsTicking board k
      → Waits left k (spin hw pass fuel ref goal k)
  spin-Waits left zero ref goal k seen hr hg ahead enough on = absurd (omega arith)
  spin-Waits zero (suc fuel) ref goal k seen hr hg ahead enough on =
      let now : elapsed k.tick ref ≡ goal =
        ap (λ t. elapsed t ref) (seen ∙ omega arith) ∙ elapsed_lem ref goal hr hg in
      (k, spin_end fuel ref goal k (ground arith), refl, omega (arith, seen), (refl, refl))
  spin-Waits (suc left) (suc fuel) ref goal k seen hr hg ahead enough on =
      let now : elapsed k.tick ref ≡ goal - suc left =
        ap (λ t. elapsed t ref) seen ∙ elapsed_lem ref (goal - suc left) hr (omega arith) in
      let n = board.due k.dev in
      let (k₁, e, runs, ticked, held) = until_tick n (fuel - n) ref goal k refl on (ground arith) in
      let less = fuel - n in
      let same : suc fuel ≡ suc n + less = omega (arith, board.due_lt k.dev) in
      Waits-after_tick left k k₁ _ (spin hw pass less ref goal k₁)
        (ap (λ f. spin hw pass f ref goal k) same ∙ e) runs ticked held
        (spin-Waits left less ref goal k₁ (omega (arith, ticked, seen)) hr hg (omega arith)
          (omega (arith, board.due_lt k.dev)) (IsTicking-Runs board k k₁ (Runs-Ticks k k₁ runs) on))

  -- With the timer's interrupts on and counted at 50 Hz, and fuel for more rounds than `period` for
  -- each tick, `sleep` returns, however the requests fall: `delay_ms / 50` ticks later, with the
  -- cursor where it was, no request left in service, and nothing else changed but the devices and the
  -- tick.
  pub sleep_on-Waits :
      (fuel delay_ms : ℕ) (k : Kernel Dev)
      → k.tick < 2 ^ 32
      → delay_ms < 2 ^ 32
      → IsTicking board k
      → delay_ms / 50 * board.period < fuel
      → Waits (delay_ms / 50) k (sleep_on hw pass fuel delay_ms k)
  unfolding sleep_on
  sleep_on-Waits fuel delay_ms k hr hd on enough =
      let goal = delay_ms / 50 in
      let at_50 =
        ap (λ f. if f == 0 then none else spin hw pass fuel k.tick (delay_ms / f) k) on.frequency in
      subst (Waits goal k) (sym at_50)
        (spin-Waits goal fuel k.tick goal k (omega arith) hr (omega arith) (omega arith) enough on)
