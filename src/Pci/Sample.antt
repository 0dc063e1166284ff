-- ===== src/Pci/Sample.antt =====
-- A configuration space with one function, by address words, for the tests.
use mal_os.Prelude.{ℕ, ◌^◌, ◌<◌, ◌==◌, if◌then◌else◌, arith}
use mal_os.Pci.Identifier.{address}

abbrev pub bus_words : ℕ → ℕ
bus_words n = if n == address 0 1 0 0 then 0x12378086 else 0

pub bus_words-lt : (n : ℕ) → bus_words n < 2 ^ 32
bus_words-lt n = ground arith
