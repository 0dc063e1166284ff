-- ===== src/Interrupts/Timer/Sleep.antt =====
-- When `sleep` returns.
use mal_os.Prelude.{
  ℕ, zero, suc, ◌+◌, ◌/◌, ◌^◌, ◌≤◌, ◌<◌, ◌≡◌, refl, ◌==◌, max, ltb, u32, Option, some, arith, true,
  false, ap, ◌∙◌,
}
use native.Mathlib.Decide.{ℕ_discrete, dec_lt}
use native.Mathlib.Nat.{div-le_self}
use mal_os.Interrupts.Timer.{elapsed, wait, sleep}

-- `count t` interrupts of the timer came between the initial read of `tick` and the read `t`; the
-- tick wraps around.
abbrev pub Counts : ℕ → (ℕ → ℕ) → (ℕ → ℕ) → Type 0
Counts ref count ticks = (t : ℕ) → ticks t ≡ u32 (ref + count t)

-- No more than one interrupt between two reads.
abbrev pub Steps : (ℕ → ℕ) → Type 0
Steps count = (t : ℕ) → (count t ≤ count (t + 1)) × (count (t + 1) ≤ count t + 1)

pub elapsed_lem : (ref c : ℕ) → ref < 2 ^ 32 → c < 2 ^ 32 → elapsed (u32 (ref + c)) ref ≡ c
elapsed_lem ref c h g = omega arith

-- The loop's test asks whether fewer interrupts came than the goal.
test_lem :
    (t ref goal : ℕ) (count ticks : ℕ → ℕ)
    → ref < 2 ^ 32
    → goal < 2 ^ 32
    → Counts ref count ticks
    → count t ≤ goal
    → elapsed (ticks t) ref ≡ count t
test_lem t ref goal count ticks hr hg counts ahead =
    ap (λ c. elapsed c ref) (counts t) ∙ elapsed_lem ref (count t) hr (omega arith)

-- What the loop has found when it ends at read `n`, if it was at read `t`.
abbrev pub Ends : ℕ → ℕ → ℕ → (ℕ → ℕ) → Option ℕ → Type 0
Ends t fuel goal count out =
    (n : ℕ) × (out ≡ some n)
    × (count n ≡ goal)
    × (n ≤ t + fuel)
    × ((s : ℕ) → t ≤ s → s < n → count s < goal)

stop_lem :
    (fuel t ref goal : ℕ) (count ticks : ℕ → ℕ)
    → elapsed (ticks t) ref ≡ count t
    → count t ≡ goal
    → Ends t fuel goal count (wait (suc fuel) t ref goal ticks)
unfolding wait
stop_lem fuel t ref goal count ticks seen e =
    let done : ltb (elapsed (ticks t) ref) goal ≡ false = ground arith in
    (t, rw (wait, done) refl, e, omega arith, λ s p q. absurd (omega arith))

-- From read `t` on, if the goal is ahead at read `t` and reached at `t + fuel`.
wait_lem :
    (fuel t ref goal : ℕ) (count ticks : ℕ → ℕ)
    → ref < 2 ^ 32
    → goal < 2 ^ 32
    → Counts ref count ticks
    → Steps count
    → count t ≤ goal
    → goal ≤ count (t + fuel)
    → Ends t fuel goal count (wait (suc fuel) t ref goal ticks)
unfolding wait
wait_lem zero t ref goal count ticks hr hg counts steps ahead last =
    stop_lem zero t ref goal count ticks (test_lem t ref goal count ticks hr hg counts ahead)
      (omega (arith, ap count {x = t + 0} {y = t} (omega arith)))
wait_lem (suc fuel) t ref goal count ticks hr hg counts steps ahead last =
    let seen = test_lem t ref goal count ticks hr hg counts ahead in
    elim (dec_lt (count t) goal) [
      | no h ↦ stop_lem (suc fuel) t ref goal count ticks seen (omega arith)
      | yes h ↦
          let (n, e, c, le, before) =
            wait_lem fuel (t + 1) ref goal count ticks hr hg counts steps (omega (arith, steps t))
              (omega (arith, ap count {x = t + 1 + fuel} {y = t + suc fuel} (omega arith))) in
          let more : ltb (elapsed (ticks t) ref) goal ≡ true = ground arith in
          (
            n,
            rw (wait, more) e,
            c,
            omega arith,
            λ s p q. elim (ℕ_discrete t s) [
              | yes same ↦ omega (arith, ap count same)
              | no later ↦ before s (omega arith) q
            ],
          )
    ]

-- If the timer is set up, `tick` is a `uint32_t`, at most one interrupt comes between two reads, the
-- initial one included, and `delay_ms / pit_frequency` of them, below 2^32, have come by the read `fuel`:
-- then `sleep` returns, at the first read that sees that many, whether or not the tick wraps around
-- meanwhile. More have come only if none were waited for and one came before the first read of the loop.
pub sleep_lem :
    (fuel pit_frequency delay_ms ref : ℕ) (count ticks : ℕ → ℕ)
    → 0 < pit_frequency
    → ref < 2 ^ 32
    → delay_ms < 2 ^ 32
    → Counts ref count ticks
    → Steps count
    → count 0 ≤ 1
    → delay_ms / pit_frequency ≤ count fuel
    → (n : ℕ) × (sleep (suc fuel) pit_frequency delay_ms ref ticks ≡ some n)
      × (count n ≡ max (delay_ms / pit_frequency) (count 0))
      × (n ≤ fuel)
      × ((s : ℕ) → s < n → count s < delay_ms / pit_frequency)
unfolding sleep wait
sleep_lem fuel pit_frequency delay_ms ref count ticks set hr hd counts steps from last =
    let goal = delay_ms / pit_frequency in
    let some_frequency : (pit_frequency == 0) ≡ false = ground arith in
    elim (dec_lt goal (count 0)) [
      | yes over ↦
          let seen : elapsed (ticks 0) ref ≡ count 0 =
            ap (λ c. elapsed c ref) (counts 0) ∙ elapsed_lem ref (count 0) hr (omega arith) in
          let done : ltb (elapsed (ticks 0) ref) goal ≡ false = ground arith in
          (
            0,
            rw (some_frequency, wait, done) refl,
            omega arith,
            omega arith,
            λ s q. absurd (omega arith),
          )
      | no ahead ↦
          let (n, e, c, le, before) =
            wait_lem fuel 0 ref goal count ticks hr
              (omega (arith, div-le_self delay_ms pit_frequency)) counts steps (omega arith)
              (omega (arith, ap count {x = 0 + fuel} {y = fuel} (omega arith))) in
          (n, rw (some_frequency) e, omega (arith, c), omega arith, λ s q. before s (omega arith) q)
    ]
