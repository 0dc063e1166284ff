-- ===== src/Main/Steps.antt =====
-- The steps of `kmain`, one by one.
use mal_os.Prelude.{
  length, ◌++◌, ap₂, sym, ℕ, zero, suc, ◌+◌, ◌*◌, ◌/◌, ◌^◌, ◌<◌, ◌≡◌, refl, ◌∙◌, ap, subst, Bool,
  u8, u32, Option, some, List, [], ◌∷◌, map, codes, arith,
}
use mal_os.Kernel.Ports.{Ports}
use mal_os.Kernel.State.{Kernel}
use mal_os.Kernel.Tty.Cursor.{cursor}
use mal_os.Kernel.Tty.Screen.{type_text, type_text-append, view, view-Writes}
use mal_os.Kernel.Tty.Text.{Writes-screen_only, Writes-on_screen}
use mal_os.Libc.Printf.{Arg, int, say}
use mal_os.Libc.Printf.Render.{render, put_all}
use mal_os.Libc.Printf.Prints.{say-render}
use mal_os.Libc.Printf.Writes.{put_all-Writes}
use mal_os.Libc.Printf.Bounded.{Renders, Renders-text, Renders-decimal, Renders-nil}
use mal_os.Pci.{pci_explore}
use mal_os.Pci.Present.{bytes_of, lines}
use mal_os.Pci.Explore.{pci_explore-Found}
use mal_os.Main.{sleep_on, show_tests, test_format}
use mal_os.Main.Board.{
  Runs-Ticks, view-Ticks, Runs-screen_only, IsBoard, Runs, Runs-trans, IsTicking, IsTicking-Runs,
}
use mal_os.Main.Wait.{sleep_on-Waits}

-- What is printed on the way.
pub test_lines : ℕ → ℕ → List ℕ
test_lines zero a = []
test_lines (suc left) a = bytes_of (render test_format (int a ∷ [])) ++ test_lines left (a + 1)

module _ {Dev : Type 0} {hw : Ports Dev} {pass : Dev → Bool × Dev} (board : IsBoard hw pass) where
  -- A step of `kmain` that ends with the cursor on the screen, `n` ticks later, with a text typed.
  abbrev pub Goes : ℕ → List ℕ → Kernel Dev → Option (Kernel Dev) → Type 0
  Goes n text k out =
      (k' : Kernel Dev) × (out ≡ some k')
      × Runs k k'
      × (k'.tick ≡ u32 (k.tick + n))
      × (cursor board.machine.crtc k' < 2000)
      × (view board.machine.crtc k' ≡ type_text k.t_color text (view board.machine.crtc k))

  pub Goes-put_all :
      (text : List ℕ) (k : Kernel Dev) (out : Option (Kernel Dev))
      → cursor board.machine.crtc k < 2000
      → k.tick < 2 ^ 32
      → out ≡ some (put_all hw text k)
      → Goes 0 (map u8 text) k out
  Goes-put_all text k out on small e =
      let k' = put_all hw text k in
      let writes = put_all-Writes board.machine.crtc text k on in
      let rest = Writes-screen_only board.machine.crtc (map u8 text) k k' writes in
      (
        k',
        e,
        Runs-screen_only k k' rest,
        ap (λ z. z.tick) rest ∙ omega arith,
        Writes-on_screen board.machine.crtc (map u8 text) k k' on writes,
        view-Writes board.machine.crtc (map u8 text) k k' on writes,
      )

  pub say-Goes :
      (format : List ℕ) (args : List Arg) (k : Kernel Dev)
      → cursor board.machine.crtc k < 2000
      → k.tick < 2 ^ 32
      → Renders format args 100
      → Goes 0 (bytes_of (render format args)) k (say hw format args k)
  say-Goes format args k on small (text, e, short) =
      subst (λ t. Goes 0 t k (say hw format args k)) (sym (ap bytes_of e))
        (Goes-put_all text k _ on small (say-render hw format args k text e (omega arith)))

  test-Renders : (a : ℕ) → a < 2 ^ 31 → Renders test_format (int a ∷ []) 100
  test-Renders a h =
      let line = Renders-text (codes "test ") _ _ _ (ground arith) (
        Renders-decimal a _ _ _ h
          (Renders-text (codes "\n") [] [] 0 (ground arith) (Renders-nil []))) in
      (line.0, line.1, omega (arith, line.2))

  -- One step after another.
  pub Goes-trans :
      (m n : ℕ) (s t : List ℕ) (k : Kernel Dev) (first out : Option (Kernel Dev))
      → (before : Goes m s k first) → Goes n t before.0 out
      → Goes (m + n) (s ++ t) k out
  Goes-trans m n s t k first out (k₁, e, runs, ticked, on, typed)
        (k₂, e', runs', ticked', on', typed') =
      (
        k₂,
        e',
        Runs-trans k k₁ k₂ runs runs',
        omega (arith, ticked, ticked'),
        on',
        typed'
            ∙ ap₂ (λ c z. type_text c t z) (ap (λ z. z.t_color) runs) typed
            ∙ sym (type_text-append k.t_color s t (view board.machine.crtc k)),
      )

  pub sleep-Goes :
      (fuel delay_ms : ℕ) (k : Kernel Dev)
      → k.tick < 2 ^ 32
      → delay_ms < 2 ^ 32
      → IsTicking board k
      → delay_ms / 50 * board.period < fuel
      → cursor board.machine.crtc k < 2000
      → Goes (delay_ms / 50) [] k (sleep_on hw pass fuel delay_ms k)
  unfolding type_text
  sleep-Goes fuel delay_ms k small hd ticking enough on =
      let (k', e, ticks, ticked, (at, _)) =
        sleep_on-Waits board fuel delay_ms k small hd ticking enough in
      (k', e, Runs-Ticks k k' ticks, ticked, omega (arith, at), view-Ticks board k k' ticks at)

  pub show_tests-Goes :
      (left a fuel : ℕ) (k : Kernel Dev)
      → a + left < 2 ^ 31
      → k.tick < 2 ^ 32
      → IsTicking board k
      → 4 * board.period < fuel
      → cursor board.machine.crtc k < 2000
      → Goes (left * 4) (test_lines left a) k (show_tests hw pass fuel left a k)
  unfolding show_tests test_lines type_text
  show_tests-Goes zero a fuel k fits small ticking enough on =
      (k, refl, refl, omega arith, on, refl)
  show_tests-Goes (suc left) a fuel k fits small ticking enough on =
      let line = bytes_of (render test_format (int a ∷ [])) in
      let said = say-Goes test_format (int a ∷ []) k on small (test-Renders a (omega arith)) in
      let (k₁, e₁, r₁, t₁, on₁, _) = said in
      let ticking₁ = IsTicking-Runs board k k₁ r₁ ticking in
      let slept = sleep-Goes fuel 200 k₁ (omega (arith, t₁)) (omega arith) ticking₁ enough on₁ in
      let (k₂, e₂, r₂, t₂, on₂, _) = slept in
      let rest =
        show_tests-Goes left (a + 1) fuel k₂ (omega arith) (omega (arith, t₂))
          (IsTicking-Runs board k₁ k₂ r₂ ticking₁) enough on₂ in
      let later = Goes-trans 4 (left * 4) [] (test_lines left (a + 1)) k₁ _ _ slept rest in
      let whole = Goes-trans 0 (4 + left * 4) line (test_lines left (a + 1)) k _ _ said later in
      rw (show_tests, e₁, e₂)
        (subst
          (λ n.
            Goes n (line ++ test_lines left (a + 1)) k (show_tests hw pass fuel left (a + 1) k₂))
          {x = 0 + (4 + left * 4)} {y = suc left * 4} (omega arith) whole)

  pub pci_explore-Goes :
      (k : Kernel Dev)
      → cursor board.machine.crtc k < 2000
      → k.tick < 2 ^ 32
      → (k' : Kernel Dev) × (pci_explore hw k ≡ some (board.functions, k'))
        × Runs k k'
        × (k'.tick ≡ u32 (k.tick + 0))
        × (cursor board.machine.crtc k' < 2000)
        × (view board.machine.crtc k'
            ≡ type_text k.t_color (lines board.functions) (view board.machine.crtc k))
  pci_explore-Goes k on small =
      let same = board.functions_present k.dev in
      let (k', e, (_, on', rest, typed)) =
        pci_explore-Found board.machine k on (omega (arith, ap length same, board.few_functions)) in
      (
        k',
        e ∙ ap (λ f. some (f, k')) same,
        Runs-screen_only k k' rest,
        ap (λ z. z.tick) rest ∙ omega arith,
        on',
        typed ∙ ap (λ f. type_text k.t_color (lines f) (view board.machine.crtc k)) same,
      )
