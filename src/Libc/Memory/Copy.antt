-- ===== src/Libc/Memory/Copy.antt =====
-- What `memcpy` and `memmove` leave in memory.
use mal_os.Prelude.{
  ℕ, zero, suc, ◌+◌, ◌-◌, ◌≤◌, ◌≡◌, refl, ◌⊎◌, inl, inr, ◌&&◌, ltb, leb, if◌then◌else◌, arith,
}
use mal_os.Prelude.{Bool-cases}
use mal_os.Libc.Memory.{Mem, store, copy_up, copy_down, memcpy, memmove}

-- `m'` is `m` with the `n` bytes at `src`, as they were in `m`, put at `dst`.
abbrev pub IsCopy : ℕ → ℕ → ℕ → Mem → Mem → Type 0
IsCopy dst src n m m' =
    (p : ℕ) → m' p ≡ (if leb dst p && ltb p (dst + n) then m (src + (p - dst)) else m p)

-- The loop upwards, from round `i` on: no round writes a byte that a later one reads.
copy_up_lem :
    (left i dst src : ℕ) (m : Mem)
    → (dst ≤ src) ⊎ (src + (i + left) ≤ dst)
    → (p : ℕ)
    → copy_up left i dst src m p
      ≡ (if leb (dst + i) p && ltb p (dst + (i + left)) then m (src + (p - dst)) else m p)
unfolding copy_up
copy_up_lem zero i dst src m apart p = ground arith
copy_up_lem (suc left) i dst src m apart p =
    ground (arith, copy_up_lem left (i + 1) dst src (store m (dst + i) (m (src + i))) apart' p)
  where
    apart' : (dst ≤ src) ⊎ (src + (i + 1 + left) ≤ dst)
    apart' = ground arith

copy_down_lem : (n dst src : ℕ) (m : Mem) → src ≤ dst → IsCopy dst src n m (copy_down n dst src m)
unfolding copy_down
copy_down_lem zero dst src m h p = ground arith
copy_down_lem (suc n) dst src m h p =
    ground (arith, copy_down_lem n dst src (store m (dst + n) (m (src + n))) h p)

-- `memcpy` on areas that do not overlap copies the `size` bytes, changes no other byte and returns
-- its target.
pub memcpy-IsCopy :
    (dst src size : ℕ) (m : Mem)
    → (dst + size ≤ src) ⊎ (src + size ≤ dst)
    → ((memcpy dst src size m).0 ≡ dst) × IsCopy dst src size m (memcpy dst src size m).1
unfolding memcpy
memcpy-IsCopy dst src size m apart =
    (refl, λ p. ground (arith, copy_up_lem size 0 dst src m apart' p))
  where
    apart' : (dst ≤ src) ⊎ (src + (0 + size) ≤ dst)
    apart' = ground arith

-- `memmove` copies the `size` bytes as they were before the call, whether or not the areas overlap,
-- changes no other byte and returns its target.
pub memmove-IsCopy :
    (dst src size : ℕ) (m : Mem)
    → ((memmove dst src size m).0 ≡ dst) × IsCopy dst src size m (memmove dst src size m).1
unfolding memmove
memmove-IsCopy dst src size m = elim (Bool-cases (ltb dst src)) [
  | inl below ↦
      rw below (refl, λ p. ground (arith, copy_up_lem size 0 dst src m (inl (ground arith)) p))
  | inr above ↦ rw above (refl, copy_down_lem size dst src m (ground arith))
]
