-- ===== src/Main/Trace.antt =====
-- The two views of `sleep`: on its own, with the values of `tick` that its reads see, and in the
-- kernel, with the interrupts that come between the reads.
use mal_os.Prelude.{
  ℕ, zero, suc, ◌+◌, ◌/◌, ◌≡◌, refl, ◌∙◌, ap, sym, subst, Bool, false, ◌==◌, ltb, Option, none,
  some, ◌>>=◌, Bool-cases, inl, inr, arith,
}
use native.Mathlib.Decide.{ℕ_discrete}
use mal_os.Kernel.Ports.{Ports}
use mal_os.Kernel.State.{Kernel}
use mal_os.Interrupts.Timer.{elapsed, wait, sleep}
use mal_os.Main.{moment, spin, sleep_on}
use mal_os.Main.Board.{
  IsBoard, IsTicking, IsTicking-Runs, Ticks, Runs-Ticks, moment-waits, moment-raises,
}

abbrev get_or : {A : Type 0} → A → Option A → A
get_or a none = a
get_or a (some b) = b

module _ {Dev : Type 0} (hw : Ports Dev) (pass : Dev → Bool × Dev) where
  -- The kernel after the next moment, if that is defined.
  abbrev pub next : Kernel Dev → Kernel Dev
  next k = get_or k (moment hw pass k)

  -- And after the next `n`.
  abbrev pub after : ℕ → Kernel Dev → Kernel Dev
  after zero k = k
  after (suc n) k = next (after n k)

module _ {Dev : Type 0} {hw : Ports Dev} {pass : Dev → Bool × Dev} (board : IsBoard hw pass) where
  next_lem :
      (k k₁ : Kernel Dev)
      → moment hw pass k ≡ some k₁
      → Ticks k k₁
      → IsTicking board k
      → (moment hw pass k ≡ some (next hw pass k)) × IsTicking board (next hw pass k)
  next_lem k k₁ e r on =
      let same : next hw pass k ≡ k₁ = ap (get_or k) e in
      (
        e ∙ ap some (sym same),
        subst (IsTicking board) (sym same) (IsTicking-Runs board k k₁ (Runs-Ticks k k₁ r) on),
      )

  next-IsTicking :
      (k : Kernel Dev)
      → IsTicking board k
      → (moment hw pass k ≡ some (next hw pass k)) × IsTicking board (next hw pass k)
  next-IsTicking k on = elim (ℕ_discrete (board.due k.dev) 0) [
    | yes due ↦ next_lem k _ (moment-raises board k due on).0 refl on
    | no due ↦ next_lem k _ (moment-waits board k due).0 refl on
  ]

  after-IsTicking :
      (n : ℕ) (k : Kernel Dev) → IsTicking board k → IsTicking board (after hw pass n k)
  after-IsTicking zero k on = on
  after-IsTicking (suc n) k on = (next-IsTicking (after hw pass n k) (after-IsTicking n k on)).1

  -- The loop at its read `t`.
  spin-wait :
      (fuel t ref goal : ℕ) (k : Kernel Dev)
      → IsTicking board k
      → spin hw pass fuel ref goal (after hw pass t k)
        ≡ (wait fuel t ref goal (λ t. (after hw pass t k).tick) >>= λ n. some (after hw pass n k))
  unfolding spin wait
  spin-wait zero t ref goal k on = refl
  spin-wait (suc fuel) t ref goal k on =
      let now = after hw pass t k in
      elim (Bool-cases (ltb (elapsed now.tick ref) goal)) [
        | inl more ↦
            rw (spin, wait, more, (next-IsTicking now (after-IsTicking t k on)).0)
              (ap (λ n. spin hw pass fuel ref goal (after hw pass n k)) {x = suc t} {y = t + 1}
                  (omega arith)
                ∙ spin-wait fuel (t + 1) ref goal k on)
        | inr done ↦ rw (spin, wait, done) refl
      ]

  -- With the timer's interrupts on and counted at 50 Hz, `sleep` in the kernel returns if and only if
  -- `sleep` on the ticks that its reads see returns, with the same fuel: at the read `n`, the kernel is
  -- the one after `n` moments.
  pub sleep_on-sleep :
      (fuel delay_ms : ℕ) (k : Kernel Dev)
      → IsTicking board k
      → sleep_on hw pass fuel delay_ms k ≡ (
          sleep fuel k.pit_frequency delay_ms k.tick (λ t. (after hw pass t k).tick) >>= λ n.
          some (after hw pass n k))
  unfolding sleep_on sleep
  sleep_on-sleep fuel delay_ms k on =
      let counted : (k.pit_frequency == 0) ≡ false = ground (arith, on.frequency) in
      rw counted (spin-wait fuel 0 k.tick (delay_ms / k.pit_frequency) k on)
