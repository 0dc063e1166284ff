-- ===== src/Libc/Strings/Reverse.antt =====
-- `strlen` finds the NUL, and `reverse` turns a string round.
use mal_os.Prelude.{
  ℕ, zero, suc, ◌+◌, ◌-◌, ◌≤◌, ◌<◌, ◌≡◌, ◌≢◌, ◌∙◌, ap, sym, Bool, ◌^◌, u32, ◌&&◌, ltb, leb,
  if◌then◌else◌, truth, true, false, fun_ext, ◌>>=◌, some, arith,
}
use native.Mathlib.Decide.{dec_lt, ℕ_discrete}
use mal_os.Libc.Memory.{Mem, store}
use mal_os.Libc.Strings.{count_from, strlen, swap_ends, reverse}

-- A string of `n` characters stands at `a`.
pub record IsString (a n : ℕ) (m : Mem) : Type 0 where
  pub characters : (i : ℕ) → i < n → m (a + i) ≢ 0
  pub ends : m (a + n) ≡ 0

count_from-IsString :
    (fuel len a n : ℕ) (m : Mem)
    → IsString a n m
    → n < 2 ^ 32
    → len ≤ n
    → n < len + fuel
    → count_from fuel len a m ≡ some n
unfolding count_from
count_from-IsString zero len a n m string word h enough = absurd (omega arith)
count_from-IsString (suc fuel) len a n m string word h enough = elim (dec_lt len n) [
  | yes inside ↦
      let more : truth (m (a + len)) ≡ true = ground (arith, string.characters len inside) in
      let next : u32 (len + 1) ≡ len + 1 = omega arith in
      rw (count_from, more, next)
        (count_from-IsString fuel (len + 1) a n m string word (omega arith) (omega arith))
  | no outside ↦
      let same : len ≡ n = omega arith in
      let stop : truth (m (a + len)) ≡ false =
        ground (arith, string.ends, ap (λ l. m (a + l)) same) in
      rw (count_from, stop) (ap some same)
]

-- The loop from `i` and `j` on turns the bytes between them round.
swap_ends_lem :
    (j i s : ℕ) (m : Mem) (p : ℕ)
    → swap_ends i j s m p
      ≡ (if leb (s + i) p && leb p (s + j) then m (s + i + (s + j - p)) else m p)
unfolding swap_ends
swap_ends_lem zero i s m p = ground (arith, ap m {x = s + i + (s + 0 - p)} {y = p})
swap_ends_lem (suc j) i s m p =
    let m₁ = store (store m (s + i) (m (s + suc j))) (s + suc j) (m (s + i)) in
    let q = s + (i + 1) + (s + j - p) in
    ground (
      arith,
      swap_ends_lem j (i + 1) s m₁ p,
      ap m {x = q} {y = s + i + (s + suc j - p)},
      ap m {x = s + i + (s + suc j - p)} {y = p},
      ap m {x = s + i + (s + suc j - p)} {y = s + i},
      ap m {x = s + i + (s + suc j - p)} {y = s + suc j},
    )

-- The memory with the string turned round.
abbrev pub turned : ℕ → ℕ → Mem → Mem
turned a n m p = if leb a p && ltb p (a + n) then m (a + (a + n - 1 - p)) else m p

swap_ends-turned : (a n : ℕ) (m : Mem) → swap_ends 0 (n - 1) a m ≡ turned a n m
swap_ends-turned a n m = fun_ext λ p.
    swap_ends_lem (n - 1) 0 a m p
    ∙ ground (
      arith,
      ap m {x = a + 0 + (a + (n - 1) - p)} {y = a + (a + n - 1 - p)},
      ap m {x = a + 0 + (a + (n - 1) - p)} {y = p},
    )

turned_empty : (a n : ℕ) (m : Mem) → n ≡ 0 → turned a n m ≡ m
turned_empty a n m empty = fun_ext λ p. ground arith

pub strlen-IsString :
    (fuel a n : ℕ) (m : Mem) → IsString a n m → n < 2 ^ 32 → n < fuel → strlen fuel a m ≡ some n
unfolding strlen
strlen-IsString fuel a n m string word enough =
    count_from-IsString fuel 0 a n m string word (omega arith) (omega arith)

-- On a string of fewer than 2^32 characters, with fuel for them and the NUL, `strlen` returns its
-- length. `reverse` leaves its characters in the opposite order and every other byte as it was, if
-- there are no more than 2^31 of them, and otherwise does nothing.
pub reverse-turned :
    (fuel a n : ℕ) (m : Mem)
    → IsString a n m
    → n < 2 ^ 32
    → n < fuel
    → (strlen fuel a m ≡ some n)
      × (reverse fuel a m ≡ some (if leb n (2 ^ 31) then turned a n m else m))
unfolding reverse
reverse-turned fuel a n m string word enough =
    let len = strlen-IsString fuel a n m string word enough in
    (
      len,
      rw (reverse, len)
          (ap some (elim (ℕ_discrete n 0) [
            | yes empty ↦
                let negative : ltb (u32 (n + 2 ^ 32 - 1)) (2 ^ 31) ≡ false = ground arith in
                let short : leb n (2 ^ 31) ≡ true = ground arith in
                rw (negative, short) (sym (turned_empty a n m empty))
            | no some_characters ↦
                let last : u32 (n + 2 ^ 32 - 1) ≡ n - 1 = omega arith in
                let bound : ltb (n - 1) (2 ^ 31) ≡ leb n (2 ^ 31) = ground arith in
                rw (last, bound)
                  (ap (λ z. if leb n (2 ^ 31) then z else m) (swap_ends-turned a n m))
          ])),
    )

turned-IsString : (a n : ℕ) (m : Mem) → IsString a n m → IsString a n (turned a n m)
turned-IsString a n m string = record {
  characters = λ i h e. string.characters (n - 1 - i) (omega arith) (
      ap m {x = a + (n - 1 - i)} {y = a + (a + n - 1 - (a + i))} (omega arith) ∙ ground (arith, e));
  ends = ground (arith, string.ends);
}

turned-turned : (a n : ℕ) (m : Mem) → turned a n (turned a n m) ≡ m
turned-turned a n m =
    fun_ext λ p. ground (arith, ap m {x = a + (a + n - 1 - (a + (a + n - 1 - p)))} {y = p})

-- On a string of at most 2^31 characters, with fuel for them and the NUL, `reverse` twice gives the memory back.
pub reverse-reverse :
    (fuel a n : ℕ) (m : Mem)
    → IsString a n m
    → n ≤ 2 ^ 31
    → n < fuel
    → reverse fuel a m >>= reverse fuel a ≡ some m
reverse-reverse fuel a n m string short enough =
    let fits : leb n (2 ^ 31) ≡ true = ground arith in
    rw ((reverse-turned fuel a n m string (omega arith) enough).1, fits)
      ((reverse-turned fuel a n (turned a n m) (turned-IsString a n m string) (omega arith)
          enough).1
        ∙ ap (λ (b : Bool). some (if b then turned a n (turned a n m) else turned a n m)) fits
        ∙ ap some (turned-turned a n m))
