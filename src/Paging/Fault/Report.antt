-- ===== src/Paging/Fault/Report.antt =====
-- The line that `page_fault` prints.
use mal_os.Prelude.{
  inl, ℕ, ◌^◌, ◌≤◌, ◌<◌, ◌≡◌, refl, ◌∙◌, ap, sym, ◌==◌, Bool, true, false, if◌then◌else◌, some,
  List, [], ◌∷◌, ◌++◌, length, All, bit, bit_and, truth-digit, bit-le, map, codes, u8,
  length-append, arith,
}
use mal_os.Kernel.Ports.{Ports}
use mal_os.Kernel.State.{Kernel}
use mal_os.Kernel.Tty.Cursor.{IsCrtc, cursor}
use mal_os.Kernel.Tty.Text.{Writes, Writes-on_screen}
use mal_os.Libc.Itoa.RoundTrip.{IsNotation, itoa-IsNotation}
use mal_os.Libc.Printf.{int}
use mal_os.Libc.Printf.Render.{
  render, before, converted, render_literal, render_text, render-converted, take-length, put_all,
  put_all-append,
}
use mal_os.Libc.Printf.Prints.{say-render}
use mal_os.Libc.Printf.Writes.{put_all-Writes}
use mal_os.Interrupts.Isr.{Registers}
use mal_os.Paging.Fault.{say_if, page_fault}

-- A word of the report.
abbrev pub word_if : Bool → List ℕ → List ℕ
word_if flag text = if flag then text else []

-- The words for an error code, by its bits.
abbrev pub fault_words : ℕ → List ℕ
fault_words err_code =
    word_if (bit 0 err_code == 0) (codes "present ")
    ++ (word_if (bit 1 err_code == 1) (codes "read-only ")
        ++ (word_if (bit 2 err_code == 1) (codes "user-mode ")
            ++ word_if (bit 3 err_code == 1) (codes "reserved ")))

abbrev pub fault_place : List ℕ → List ℕ
fault_place ds = codes ") at 0x" ++ (ds ++ codes "\n")

abbrev pub fault_report : ℕ → List ℕ → List ℕ
fault_report err_code ds = codes "Page fault! ( " ++ (fault_words err_code ++ fault_place ds)

fault_place-render :
    (v : ℕ)
    → v < 2 ^ 32
    → (ds : List ℕ) × IsNotation 16 8 v ds
      × (render (codes ") at 0x%x\n") (int v ∷ []) ≡ some (fault_place ds))
      × (length (fault_place ds) ≤ 16)
fault_place-render v h =
    let (ds, e, notation) =
      itoa-IsNotation 16 (omega arith) (omega arith) v 8 (omega arith) (omega arith)
        (inl (λ e. absurd (omega (arith, e)))) (omega arith) in
    let digits : converted b'x' (int v ∷ []) ≡ some (ds, []) =
      rw (e, take-length ds (0 ∷ [])) refl in
    (
      ds,
      notation,
      render_text (codes ") at 0x") _ _ (ground arith)
          ∙ ap (before (codes ") at 0x")) (
              render-converted b'x' _ _ _ ds refl refl digits
              ∙ ap (before ds) (render_literal (codes "\n") [] (ground arith))),
      omega (arith, length-append ds (codes "\n"), notation.short),
    )

-- The code's four tests.
no_digit : (w : ℕ) → (bit_and w 0x1 == 0) ≡ (bit 0 w == 0)
no_digit w = ground (arith, truth-digit 0 w, bit-le 0 w)

module _ {Dev : Type 0} (hw : Ports Dev) where
  say_if-word_if :
      (flag : Bool) (text : List ℕ) (k : Kernel Dev)
      → All (λ c. (c == b'%') ≡ false) text
      → length text ≤ 32
      → say_if hw flag text k ≡ some (put_all hw (word_if flag text) k)
  unfolding put_all
  say_if-word_if true text k all short =
      say-render hw text [] k text (render_literal text [] all) (omega arith)
  say_if-word_if false text k all short = refl

  -- The calls of `printf`, one after the other.
  page_fault-put_all :
      (cr2 : ℕ) (regs : Registers) (ds : List ℕ) (k : Kernel Dev)
      → render (codes ") at 0x%x\n") (int cr2 ∷ []) ≡ some (fault_place ds)
      → length (fault_place ds) ≤ 16
      → page_fault hw cr2 regs k ≡ some (put_all hw (fault_report regs.err_code ds) k)
  unfolding page_fault
  page_fault-put_all cr2 regs ds k rendered short =
      let w = regs.err_code in
      let head = codes "Page fault! ( " in
      let present = word_if (bit 0 w == 0) (codes "present ") in
      let read_only = word_if (bit 1 w == 1) (codes "read-only ") in
      let user = word_if (bit 2 w == 1) (codes "user-mode ") in
      let reserved = word_if (bit 3 w == 1) (codes "reserved ") in
      let k₁ = put_all hw head k in
      let k₂ = put_all hw present k₁ in
      let k₃ = put_all hw read_only k₂ in
      let k₄ = put_all hw user k₃ in
      let k₅ = put_all hw reserved k₄ in
      let e₁ = say-render hw head [] k head (render_literal head [] (ground arith)) (omega arith) in
      let e₂ = say_if-word_if (bit 0 w == 0) (codes "present ") k₁ (ground arith) (omega arith) in
      let e₃ = say_if-word_if (bit 1 w == 1) (codes "read-only ") k₂ (ground arith) (omega arith) in
      let e₄ = say_if-word_if (bit 2 w == 1) (codes "user-mode ") k₃ (ground arith) (omega arith) in
      let e₅ = say_if-word_if (bit 3 w == 1) (codes "reserved ") k₄ (ground arith) (omega arith) in
      let e₆ =
        say-render hw (codes ") at 0x%x\n") (int cr2 ∷ []) k₅ (fault_place ds) rendered
          (omega arith) in
      let joined : put_all hw (fault_report w ds) k ≡ put_all hw (fault_place ds) k₅ =
        put_all-append hw head (fault_words w ++ fault_place ds) k
        ∙ put_all-append hw (fault_words w) (fault_place ds) k₁
        ∙ ap (put_all hw (fault_place ds)) (
            put_all-append hw present _ k₁
            ∙ put_all-append hw read_only _ k₂
            ∙ put_all-append hw user _ k₃) in
      rw (e₁, no_digit w, e₂, truth-digit 1 w, e₃, truth-digit 2 w, e₄, truth-digit 3 w, e₅, e₆)
        (ap some (sym joined))

module _ {Dev : Type 0} {hw : Ports Dev} (crtc : IsCrtc hw) where
  -- With the cursor on the screen and a faulting address of 32 bits, `page_fault` returns and has
  -- written "Page fault! ( ", the words for the error code's bits, and the address: "present" for bit
  -- 0 clear, "read-only" for bit 1, "user-mode" for bit 2 and "reserved" for bit 3 set, and `ds`, the
  -- usual notation of the address in base 16.
  pub page_fault-Writes :
      (cr2 : ℕ) (regs : Registers) (k : Kernel Dev)
      → cr2 < 2 ^ 32
      → cursor crtc k < 2000
      → (ds : List ℕ) × (k' : Kernel Dev) × (page_fault hw cr2 regs k ≡ some k')
        × IsNotation 16 8 cr2 ds
        × Writes crtc (map u8 (fault_report regs.err_code ds)) k k'
        × (cursor crtc k' < 2000)
  page_fault-Writes cr2 regs k h on =
      let (ds, notation, rendered, short) = fault_place-render cr2 h in
      let text = fault_report regs.err_code ds in
      let k' = put_all hw text k in
      let writes = put_all-Writes crtc text k on in
      (
        ds,
        k',
        page_fault-put_all hw cr2 regs ds k rendered short,
        notation,
        writes,
        Writes-on_screen crtc (map u8 text) k k' on writes,
      )
