-- ===== src/Pci/Store.antt =====
-- What `write` of pci.c does to the configuration space, behind a host bridge that stores what is
-- written to the data port, as it does for the registers that can be written.
mod Tests
use mal_os.Prelude.{
  ℕ, ◌*◌, ◌/◌, ◌%◌, ◌^◌, ◌<◌, ◌≡◌, refl, ◌∙◌, ap, Bool, true, ◌==◌, ◌&&◌, if◌then◌else◌, arith, u32,
}
use mal_os.Kernel.Ports.{Ports}
use mal_os.Pci.{construct_identifier, read, write}
use mal_os.Pci.Identifier.{address, construct_identifier-address}
use mal_os.Pci.Config.{IsHostBridge, read-config}

-- The register `reg` of one function is the register `r` of another.
abbrev pub same_place : ℕ → ℕ → ℕ → ℕ → ℕ → ℕ → ℕ → ℕ → Bool
same_place bus slot func reg b s f r = (b == bus) && (s == slot) && (f == func) && (r == reg)

-- A write to the data port stores the double word where the latch says, if it can be written there.
pub record IsStore {Dev : Type 0} {hw : Ports Dev} (bridge : IsHostBridge hw) : Type 0 where
  pub writeable : ℕ → ℕ → ℕ → ℕ → Bool
  pub store :
      (d : Dev) (bus slot func reg v b s f r : ℕ)
      → bus < 256
      → slot < 32
      → func < 8
      → reg < 64
      → v < 2 ^ 32
      → b < 256
      → s < 32
      → f < 8
      → r < 64
      → writeable bus slot func reg ≡ true
      → bridge.latch d ≡ address bus slot func reg
      → bridge.config (hw.out32 0xCFC v d) b s f r
        ≡ (if same_place bus slot func reg b s f r then v else bridge.config d b s f r)

module _ {Dev : Type 0} {hw : Ports Dev} {bridge : IsHostBridge hw}
    (bus_store : IsStore bridge) where
  write-config :
      (bus slot func offset value b s f r : ℕ) (d : Dev)
      → bus < 256
      → slot < 32
      → func < 8
      → offset < 256
      → value < 2 ^ 32
      → b < 256
      → s < 32
      → f < 8
      → r < 64
      → bus_store.writeable bus slot func (offset / 4) ≡ true
      → bridge.config (write hw bus slot func offset value d) b s f r
        ≡ (if same_place bus slot func (offset / 4) b s f r then value else bridge.config d b s f r)
  unfolding write
  write-config bus slot func offset value b s f r d hb hs hf ho hv b_lt s_lt f_lt r_lt can =
      let id = construct_identifier bus slot func offset in
      let named = construct_identifier-address bus slot func offset hb hs hf ho in
      let d₁ = hw.out32 0xCF8 (u32 id) d in
      let (latched, kept) = bridge.select d (u32 id) (omega arith) in
      let whole : u32 value ≡ value = omega arith in
      let stored =
        bus_store.store d₁ bus slot func (offset / 4) (u32 value) b s f r hb hs hf (omega arith)
          (omega arith) b_lt s_lt f_lt r_lt can (omega (arith, latched, named)) in
      stored ∙ rw (whole, kept) refl

  -- What `write` writes at an offset replaces the whole double word that holds the offset, if it can
  -- be written: `read` at an offset in that double word then gives the bytes of the value from there
  -- on, and anywhere else what stood there before.
  pub read-write :
      (bus slot func offset value b s f o : ℕ) (d : Dev)
      → bus < 256
      → slot < 32
      → func < 8
      → offset < 256
      → value < 2 ^ 32
      → b < 256
      → s < 32
      → f < 8
      → o < 256
      → bus_store.writeable bus slot func (offset / 4) ≡ true
      → (read hw b s f o (write hw bus slot func offset value d)).0 ≡ (
          if same_place bus slot func (offset / 4) b s f (o / 4)
          then value / 2 ^ (8 * (o % 4))
          else (read hw b s f o d).0)
  read-write bus slot func offset value b s f o d hb hs hf ho hv b_lt s_lt f_lt o_lt can =
      let d' = write hw bus slot func offset value d in
      let after = (read-config bridge b s f o d' b_lt s_lt f_lt o_lt).0 in
      let before = (read-config bridge b s f o d b_lt s_lt f_lt o_lt).0 in
      let word =
        write-config bus slot func offset value b s f (o / 4) d hb hs hf ho hv b_lt s_lt f_lt
          (omega arith) can in
      ground (arith, after, before, word)
