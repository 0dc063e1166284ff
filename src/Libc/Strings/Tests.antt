-- ===== src/Libc/Strings/Tests.antt =====
-- A string of three characters in memory.
use mal_os.Prelude.{ℕ, ◌+◌, ◌<◌, ◌≡◌, ◌≢◌, refl, ◌==◌, if◌then◌else◌, leb, ◌^◌, some, arith}
use mal_os.Libc.Memory.{Mem}
use mal_os.Libc.Strings.{strlen, count_from, reverse}
use mal_os.Libc.Strings.Reverse.{IsString, turned, reverse-turned}

abbrev abc : Mem
abc p = if p == 10 then b'a' else if p == 11 then b'b' else if p == 12 then b'c' else 0

abc-nonzero : (i : ℕ) → i < 3 → abc (10 + i) ≢ 0
abc-nonzero i h e = ground arith

abc-IsString : IsString 10 3 abc
abc-IsString = record { characters = abc-nonzero; ends = refl }

abc-length : strlen 9 10 abc ≡ some 3
unfolding strlen count_from
abc-length = refl

reverse-turned_example :
    (strlen 9 10 abc ≡ some 3)
    × (reverse 9 10 abc ≡ some (if leb 3 (2 ^ 31) then turned 10 3 abc else abc))
reverse-turned_example = reverse-turned 9 10 3 abc abc-IsString (omega arith) (omega arith)
