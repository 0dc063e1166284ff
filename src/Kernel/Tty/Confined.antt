-- ===== src/Kernel/Tty/Confined.antt =====
-- The memory that the terminal writes to.
use mal_os.Prelude.{
  ℕ, ◌+◌, ◌≤◌, ◌<◌, ◌≡◌, refl, ◌∙◌, ap, sym, subst, ◌⊎◌, inl, inr, List, [], ◌∷◌, ◌==◌, ◌||◌,
  Bool-cases, arith,
}
use mal_os.Libc.Memory.{Mem}
use mal_os.Kernel.Ports.{Ports}
use mal_os.Kernel.State.{Kernel}
use mal_os.Kernel.Tty.Cursor.{IsCrtc, cursor}
use mal_os.Kernel.Tty.Print.{drawn, shown}
use mal_os.Kernel.Tty.Text.{Writes, settle-lt}

-- Outside the screen of 25 lines at `buff` and the line behind it.
abbrev pub Outside : ℕ → ℕ → Type 0
Outside buff p = (p < buff) ⊎ (buff + 4160 ≤ p)

module _ {Dev : Type 0} where
  drawn-Outside :
      (c cell p : ℕ) (k : Kernel Dev)
      → cell < 2000
      → Outside k.t_buff p
      → drawn c cell k p ≡ k.mem p
  drawn-Outside c cell p k h outside = elim (Bool-cases (c == b'\n' || c == b'\t')) [
    | inl blank ↦ rw blank refl
    | inr plain ↦ rw plain (ground arith)
  ]

  shown-Outside :
      (c cell p : ℕ) (k : Kernel Dev)
      → cell < 2000
      → Outside k.t_buff p
      → shown c cell k p ≡ k.mem p
  shown-Outside c cell p k h outside = ground (arith, drawn-Outside c cell p k h outside)

module _ {Dev : Type 0} {hw : Ports Dev} (crtc : IsCrtc hw) where
  pub Writes-Outside :
      (s : List ℕ) (k k' : Kernel Dev) (p : ℕ)
      → cursor crtc k < 2000
      → Writes crtc s k k'
      → Outside k.t_buff p
      → k'.mem p ≡ k.mem p
  Writes-Outside [] k k' p h (at, rest) outside = ap (λ z. z.mem p) rest
  Writes-Outside (c ∷ s) k k' p h (k₁, (at, memory, rest), writes) outside =
      let on = subst (λ n. n < 2000) (sym at) (settle-lt crtc c (cursor crtc k) h) in
      Writes-Outside s k₁ k' p on writes
        (subst (λ b. Outside b p) (sym (ap (λ z. z.t_buff) rest)) outside)
      ∙ memory p
      ∙ shown-Outside c (cursor crtc k) p k h outside

-- The memory holds bytes.
abbrev pub IsBytes : Mem → Type 0
IsBytes m = (p : ℕ) → m p < 256

module _ {Dev : Type 0} where
  drawn-IsBytes : (c cell : ℕ) (k : Kernel Dev) → IsBytes k.mem → IsBytes (drawn c cell k)
  drawn-IsBytes c cell k bytes p = elim (Bool-cases (c == b'\n' || c == b'\t')) [
    | inl blank ↦ rw blank (bytes p)
    | inr plain ↦ rw plain (ground (arith, bytes p))
  ]

  shown-IsBytes : (c cell : ℕ) (k : Kernel Dev) → IsBytes k.mem → IsBytes (shown c cell k)
  shown-IsBytes c cell k bytes p =
      ground (arith, drawn-IsBytes c cell k bytes p, drawn-IsBytes c cell k bytes (p + 160))

module _ {Dev : Type 0} {hw : Ports Dev} (crtc : IsCrtc hw) where
  pub Writes-IsBytes :
      (s : List ℕ) (k k' : Kernel Dev) → Writes crtc s k k' → IsBytes k.mem → IsBytes k'.mem
  Writes-IsBytes [] k k' (at, rest) bytes = λ p. subst (λ z. z.mem p < 256) (sym rest) (bytes p)
  Writes-IsBytes (c ∷ s) k k' (k₁, (at, memory, rest), writes) bytes =
      Writes-IsBytes s k₁ k' writes
        (λ p. omega (arith, memory p, shown-IsBytes c (cursor crtc k) k bytes p))
