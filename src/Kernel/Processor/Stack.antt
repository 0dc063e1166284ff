-- ===== src/Kernel/Processor/Stack.antt =====
-- Words on the stack.
use mal_os.Prelude.{
  ℕ, zero, suc, ◌+◌, ◌-◌, ◌*◌, ◌^◌, ◌≤◌, ◌<◌, ◌≡◌, refl, ◌∙◌, ap, sym, subst, ◌⊎◌, inr, u32, some,
  get_elem?, List, [], ◌∷◌, length, arith,
}
use mathlib.Core.Option.{some-injective}
use mal_os.Libc.Memory.{Mem}
use mal_os.Kernel.Processor.{load_double, store_double}

pub load-store_double : (m : Mem) (a v : ℕ) → v < 2 ^ 32 → load_double (store_double m a v) a ≡ v
unfolding load_double store_double
load-store_double m a v h = ground arith

pub load-store_apart :
    (m : Mem) (a b v : ℕ)
    → (a + 4 ≤ b) ⊎ (b + 4 ≤ a)
    → load_double (store_double m a v) b ≡ load_double m b
unfolding load_double store_double
load-store_apart m a b v h = ground arith

pub store_double_outside :
    (m : Mem) (a v p : ℕ) → (p < a) ⊎ (a + 4 ≤ p) → store_double m a v p ≡ m p
unfolding store_double
store_double_outside m a v p h = ground arith

-- The words from an address on.
abbrev pub Holds : Mem → ℕ → List ℕ → Type 0
Holds m a [] = Unit
Holds m a (w ∷ ws) = (load_double m a ≡ w) × Holds m (a + 4) ws

pub Holds-same :
    (m m' : Mem) (ws : List ℕ) (a : ℕ)
    → ((p : ℕ) → a ≤ p → p < a + 4 * length ws → m' p ≡ m p)
    → Holds m a ws
    → Holds m' a ws
unfolding load_double
Holds-same m m' [] a same held = tt
Holds-same m m' (w ∷ ws) a same (word, held) = (
  omega (
    arith,
    word,
    same a (omega arith) (omega arith),
    same (a + 1) (omega arith) (omega arith),
    same (a + 2) (omega arith) (omega arith),
    same (a + 3) (omega arith) (omega arith),
  ),
  Holds-same m m' ws (a + 4) (λ p h g. same p (omega arith) (omega arith)) held,
)

-- Any of them.
pub Holds-at :
    (m : Mem) (ws : List ℕ) (a i : ℕ) {w : ℕ}
    → get_elem? ws i ≡ some w
    → Holds m a ws
    → load_double m (a + 4 * i) ≡ w
Holds-at m [] a i e held = cc
Holds-at m (w ∷ ws) a zero e (word, held) =
    ap (load_double m) (omega arith) ∙ word ∙ some-injective _ _ e
Holds-at m (w ∷ ws) a (suc i) e (word, held) =
    ap (load_double m) (omega arith) ∙ Holds-at m ws (a + 4) i e held

-- The stack pointer after a push, after some, and after a pop.
abbrev pub pushed : ℕ → ℕ
pushed esp = u32 (esp + 2 ^ 32 - 4)

abbrev pub pushed_by : ℕ → ℕ → ℕ
pushed_by zero esp = esp
pushed_by (suc n) esp = pushed (pushed_by n esp)

abbrev pub popped : ℕ → ℕ
popped esp = u32 (esp + 4)

-- In the memory, the stack from `esp` on has these words on it, and the rest of it begins at `bottom`.
-- Outside the room for 17 words above the rest, the memory is `before`.
pub record IsStack (before : Mem) (bottom : ℕ) (ws : List ℕ) (esp : ℕ) (mem : Mem) : Type 0 where
  pub height : esp + 4 * length ws ≡ bottom
  pub words : Holds mem esp ws
  pub outside : (p : ℕ) → (bottom ≤ p) ⊎ (p + 68 < bottom) → mem p ≡ before p

pub empty-IsStack : (mem : Mem) (bottom : ℕ) → IsStack mem bottom [] bottom mem
empty-IsStack mem bottom = record { height = omega arith; words = tt; outside = λ p out. refl }

module _ {before : Mem} {bottom : ℕ} {mem : Mem} where
  pub push-IsStack :
      (v : ℕ) (ws : List ℕ) (esp : ℕ)
      → v < 2 ^ 32
      → bottom < 2 ^ 32
      → 68 ≤ bottom
      → length ws ≤ 16
      → IsStack before bottom ws esp mem
      → IsStack before bottom (v ∷ ws) (pushed esp) (store_double mem (pushed esp) v)
  push-IsStack v ws esp hv hb room short stack =
      let a = pushed esp in
      let below : a + 4 ≡ esp = omega (arith, stack.height) in
      record {
        height = omega (arith, stack.height);
        words = (
          load-store_double mem a v hv,
          Holds-same mem (store_double mem a v) ws (a + 4)
              (λ p h g. store_double_outside mem a v p (inr (omega arith)))
              (subst (λ e. Holds mem e ws) (sym below) stack.words),
        );
        outside = λ p out.
            store_double_outside mem a v p (ground (arith, stack.height)) ∙ stack.outside p out;
      }

  pub pop-IsStack :
      (v : ℕ) (ws : List ℕ) (esp : ℕ)
      → bottom < 2 ^ 32
      → IsStack before bottom (v ∷ ws) esp mem
      → (load_double mem esp ≡ v) × IsStack before bottom ws (popped esp) mem
  pop-IsStack v ws esp hb stack = (
    stack.words.0,
    record {
      height = omega (arith, stack.height);
      words = subst (λ e. Holds mem e ws) (omega (arith, stack.height)) stack.words.1;
      outside = stack.outside;
    },
  )

  pub drop-IsStack :
      (v w : ℕ) (ws : List ℕ) (esp : ℕ)
      → bottom < 2 ^ 32
      → IsStack before bottom (v ∷ w ∷ ws) esp mem
      → IsStack before bottom ws (u32 (esp + 8)) mem
  drop-IsStack v w ws esp hb stack = record {
    height = omega (arith, stack.height);
    words = subst (λ e. Holds mem e ws) (omega (arith, stack.height)) stack.words.1.1;
    outside = stack.outside;
  }

  -- Words that another piece of code leaves alone.
  pub same-IsStack :
      (mem' : Mem) (ws : List ℕ) (esp : ℕ)
      → ((p : ℕ) → mem' p ≡ mem p)
      → IsStack before bottom ws esp mem
      → IsStack before bottom ws esp mem'
  same-IsStack mem' ws esp same stack = record {
    height = stack.height;
    words = Holds-same mem mem' ws esp (λ p h g. same p) stack.words;
    outside = λ p out. same p ∙ stack.outside p out;
  }
