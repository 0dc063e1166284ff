-- ===== src/Libc/Memory/Compare.antt =====
-- The order that `memcmp` decides.
use mal_os.Prelude.{ℕ, zero, suc, ◌+◌, ◌≤◌, ◌<◌, ◌≡◌, refl, ◌⊎◌, inl, inr, ltb, arith}
use mal_os.Prelude.{Bool-cases, sym, subst}
use native.Mathlib.Decide.{ℕ_discrete}
use mal_os.Libc.Memory.{Mem, minus_one, compare_from, memcmp}

abbrev pub SameBelow : ℕ → ℕ → ℕ → ℕ → Mem → Type 0
SameBelow i k a b m = (j : ℕ) → i ≤ j → j < k → m (a + j) ≡ m (b + j)

-- The first difference of two areas, at offset `at`.
pub record FirstLess (i n a b : ℕ) (m : Mem) : Type 0 where
  pub at : ℕ
  pub from : i ≤ at
  pub inside : at < n
  pub same : SameBelow i at a b m
  pub less : m (a + at) < m (b + at)

-- What each result says of the bytes from offset `i` on.
abbrev pub Verdict : ℕ → ℕ → ℕ → ℕ → Mem → ℕ → Type 0
Verdict i n a b m r =
    ((r ≡ 0) × SameBelow i n a b m)
    ⊎ (((r ≡ minus_one) × FirstLess i n a b m) ⊎ ((r ≡ 1) × FirstLess i n b a m))

-- A verdict from the next byte on, behind a byte that is the same in both.
module _ (i a b : ℕ) (m : Mem) (same : m (a + i) ≡ m (b + i)) where
  SameBelow-cons : (k : ℕ) → SameBelow (i + 1) k a b m → SameBelow i k a b m
  SameBelow-cons k rest j p q = elim (ℕ_discrete i j) [
    | yes e ↦ subst (λ t. m (a + t) ≡ m (b + t)) e same
    | no ne ↦ rest j (omega arith) q
  ]

  FirstLess-cons : (n : ℕ) → FirstLess (i + 1) n a b m → FirstLess i n a b m
  FirstLess-cons n f = record {
    at = f.at;
    from = omega (arith, f.from);
    inside = f.inside;
    same = SameBelow-cons f.at f.same;
    less = f.less;
  }

Verdict-cons :
    (i n a b r : ℕ) (m : Mem)
    → m (a + i) ≡ m (b + i)
    → Verdict (i + 1) n a b m r
    → Verdict i n a b m r
Verdict-cons i n a b r m same (inl (e, rest)) = inl (e, SameBelow-cons i a b m same n rest)
Verdict-cons i n a b r m same (inr (inl (e, f))) = inr (inl (e, FirstLess-cons i a b m same n f))
Verdict-cons i n a b r m same (inr (inr (e, f))) =
    inr (inr (e, FirstLess-cons i b a m (sym same) n f))

difference_here : (i n a b : ℕ) (m : Mem) → i < n → m (a + i) < m (b + i) → FirstLess i n a b m
difference_here i n a b m h less = record {
  at = i;
  from = omega arith;
  inside = h;
  same = λ j p q. absurd (omega arith);
  less = less;
}

compare_from-Verdict :
    (left i n a b : ℕ) (m : Mem) → i + left ≡ n → Verdict i n a b m (compare_from left i a b m)
unfolding compare_from
compare_from-Verdict zero i n a b m e = inl (refl, λ j p q. absurd (omega arith))
compare_from-Verdict (suc left) i n a b m e = elim (Bool-cases (ltb (m (a + i)) (m (b + i)))) [
  | inl less ↦ rw less (inr (inl (refl, difference_here i n a b m (omega arith) (ground arith))))
  | inr ge ↦ rw ge (elim (Bool-cases (ltb (m (b + i)) (m (a + i)))) [
    | inl more ↦ rw more (inr (inr (refl, difference_here i n b a m (omega arith) (ground arith))))
    | inr le ↦ rw le (
        Verdict-cons i n a b (compare_from left (i + 1) a b m) m (ground arith)
          (compare_from-Verdict left (i + 1) n a b m (omega arith)))
  ])
]

-- `memcmp` returns 0 if the areas are the same byte for byte. Otherwise it returns -1 or 1, as the
-- byte at the first offset where they differ is less in the first or in the second area.
pub memcmp-Verdict : (a b size : ℕ) (m : Mem) → Verdict 0 size a b m (memcmp a b size m)
unfolding memcmp
memcmp-Verdict a b size m = compare_from-Verdict size 0 size a b m (omega arith)
