-- ===== src/Libc/Memory/Fill.antt =====
-- What `memset` leaves in memory.
use mal_os.Prelude.{ℕ, zero, suc, ◌+◌, ◌≡◌, refl, ◌&&◌, ltb, leb, if◌then◌else◌, u8, arith}
use mal_os.Libc.Memory.{Mem, store, fill, memset}

fill_lem :
    (left i buf v : ℕ) (m : Mem) (p : ℕ)
    → fill left i buf v m p ≡ (if leb (buf + i) p && ltb p (buf + (i + left)) then u8 v else m p)
unfolding fill
fill_lem zero i buf v m p = ground arith
fill_lem (suc left) i buf v m p =
    ground (arith, fill_lem left (i + 1) buf v (store m (buf + i) (u8 v)) p)

-- `memset` puts the low byte of `value` into each of the `size` bytes, changes no other byte and
-- returns its argument.
pub memset_lem :
    (buf value size : ℕ) (m : Mem)
    → ((memset buf value size m).0 ≡ buf)
      × ((p : ℕ)
          → (memset buf value size m).1 p
            ≡ (if leb buf p && ltb p (buf + size) then u8 value else m p))
unfolding memset
memset_lem buf value size m = (refl, λ p. ground (arith, fill_lem size 0 buf value m p))
