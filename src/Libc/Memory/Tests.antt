-- ===== src/Libc/Memory/Tests.antt =====
-- Runs of the memory functions, and their theorems at concrete areas.
use mal_os.Prelude.{◌*◌, ◌≡◌, refl}
use mal_os.Libc.Memory.{Mem, copy_up, copy_down, memmove, memcmp}
use mal_os.Libc.Memory.{compare_from}
use mal_os.Libc.Memory.Copy.{IsCopy, memmove-IsCopy}
use mal_os.Libc.Memory.Compare.{Verdict, memcmp-Verdict}

-- Byte `p` holds `3 * p`.
abbrev triples : Mem
triples p = 3 * p

moved_up : (memmove 2 0 4 triples).1 5 ≡ 9
unfolding memmove copy_up copy_down
moved_up = refl

compared : memcmp 4 2 3 triples ≡ 1
unfolding memcmp compare_from
compared = refl

memmove-IsCopy_example :
    ((memmove 2 0 4 triples).0 ≡ 2) × IsCopy 2 0 4 triples (memmove 2 0 4 triples).1
memmove-IsCopy_example = memmove-IsCopy 2 0 4 triples

memcmp-Verdict_example : Verdict 0 3 4 2 triples (memcmp 4 2 3 triples)
memcmp-Verdict_example = memcmp-Verdict 4 2 3 triples
