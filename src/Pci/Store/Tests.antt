-- ===== src/Pci/Store/Tests.antt =====
-- A write on a small host bridge that stores what is written.
use mal_os.Prelude.{
  ℕ, ◌*◌, ◌/◌, ◌%◌, ◌^◌, ◌<◌, ◌≡◌, refl, ◌==◌, true, if◌then◌else◌, arith, ap, u32,
}
use mal_os.Kernel.Ports.{Ports}
use mal_os.Pci.{read, write}
use mal_os.Pci.Identifier.{address}
use mal_os.Pci.Config.{IsHostBridge}
use mal_os.Pci.Store.{same_place, IsStore, read-write}

record Bridge : Type 0 where
  latch : ℕ
  words : ℕ → ℕ

abbrev bridge_out : ℕ → ℕ → Bridge → Bridge
bridge_out port v d =
    if port == 0xCF8
    then record d { latch = v }
    else if port == 0xCFC
    then record d { words = λ n. if n == d.latch then v else d.words n }
    else d

abbrev bridge_ports : Ports Bridge
bridge_ports = record {
  in8 = λ port d. (0, d);
  out8 = λ port v d. d;
  in16 = λ port d. (0, d);
  out16 = λ port v d. d;
  in32 = λ port d. (if port == 0xCFC then u32 (d.words d.latch) else 0, d);
  out32 = bridge_out;
}

words-lt : (d : Bridge) (n : ℕ) → u32 (d.words n) < 2 ^ 32
words-lt d n = omega arith

abbrev bridge_ports-IsHostBridge : IsHostBridge bridge_ports
bridge_ports-IsHostBridge = record {
  config = λ d bus slot func reg. u32 (d.words (address bus slot func reg));
  latch = λ d. d.latch;
  config_lt = λ d bus slot func reg. words-lt d (address bus slot func reg);
  select = λ d v h. (refl, refl);
  fetch = λ d bus slot func reg hb hs hf hr e. (ap (λ n. u32 (d.words n)) e, refl);
}

-- Two registers with the same address word are the same.
address-same_place :
    (bus slot func reg b s f r : ℕ)
    → slot < 32
    → func < 8
    → reg < 64
    → s < 32
    → f < 8
    → r < 64
    → (address b s f r == address bus slot func reg) ≡ same_place bus slot func reg b s f r
address-same_place bus slot func reg b s f r hs hf hr s_lt f_lt r_lt = ground arith

stores :
    (d : Bridge) (bus slot func reg v b s f r : ℕ)
    → slot < 32
    → func < 8
    → reg < 64
    → v < 2 ^ 32
    → s < 32
    → f < 8
    → r < 64
    → d.latch ≡ address bus slot func reg
    → u32 (if address b s f r == d.latch then v else d.words (address b s f r))
      ≡ (if same_place bus slot func reg b s f r then v else u32 (d.words (address b s f r)))
stores d bus slot func reg v b s f r hs hf hr hv s_lt f_lt r_lt e =
    let same = address-same_place bus slot func reg b s f r hs hf hr s_lt f_lt r_lt in
    rw (e, same) (ground arith)

abbrev bridge_ports-IsStore : IsStore bridge_ports-IsHostBridge
bridge_ports-IsStore = record {
  writeable = λ bus slot func reg. true;
  store = λ d bus slot func reg v b s f r hb hs hf hr hv b_lt s_lt f_lt r_lt can e.
      stores d bus slot func reg v b s f r hs hf hr hv s_lt f_lt r_lt e;
}

abbrev empty : Bridge
empty = record { latch = 0; words = λ n. 0 }

-- Written at the offset 0x3C, read at 0x3E.
read-write_example :
    (read bridge_ports 1 2 3 0x3E (write bridge_ports 1 2 3 0x3C 0x12345678 empty)).0 ≡ (
      if same_place 1 2 3 15 1 2 3 15
      then 0x12345678 / 2 ^ (8 * (0x3E % 4))
      else (read bridge_ports 1 2 3 0x3E empty).0)
read-write_example =
    read-write bridge_ports-IsStore 1 2 3 0x3C 0x12345678 1 2 3 0x3E empty (omega arith)
      (omega arith) (omega arith) (omega arith) (omega arith) (omega arith) (omega arith)
      (omega arith) (omega arith) refl
