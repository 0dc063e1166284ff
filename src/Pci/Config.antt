-- ===== src/Pci/Config.antt =====
-- The host bridge, which is not part of the repository: its documented access to the configuration
-- space as laws, and what the functions of pci.c read there.
use mal_os.Prelude.{
  ℕ, ◌*◌, ◌/◌, ◌%◌, ◌^◌, ◌<◌, ◌≡◌, refl, ◌∙◌, ap, ap₂, u8, u16, u32, ◌==◌, bit, arith, truth-digit,
}
use mal_os.Kernel.Ports.{Ports}
use mal_os.Pci.{construct_identifier, read, device_multifunction, get_device_descriptor}
use mal_os.Pci.Identifier.{address, construct_identifier-address}

-- `config d bus slot func reg` is a double word of the configuration space. A word at port 0xCF8 is
-- latched; with the enable bit set, port 0xCFC reads the double word that it names.
pub record IsHostBridge {Dev : Type 0} (hw : Ports Dev) : Type 0 where
  pub config : Dev → ℕ → ℕ → ℕ → ℕ → ℕ
  pub latch : Dev → ℕ
  pub config_lt : (d : Dev) (bus slot func reg : ℕ) → config d bus slot func reg < 2 ^ 32
  pub select :
      (d : Dev) (v : ℕ)
      → v < 2 ^ 32
      → let d' = hw.out32 0xCF8 v d in (latch d' ≡ v) × (config d' ≡ config d)
  pub fetch :
      (d : Dev) (bus slot func reg : ℕ)
      → bus < 256
      → slot < 32
      → func < 8
      → reg < 64
      → latch d ≡ address bus slot func reg
      → let (v, d') = hw.in32 0xCFC d in (v ≡ config d bus slot func reg) × (config d' ≡ config d)

module _ {Dev : Type 0} {hw : Ports Dev} (bridge : IsHostBridge hw) where
  -- `read` at an offset gives the bytes of the double word from that offset on, and leaves the
  -- configuration as it is.
  pub read-config :
      (bus slot func offset : ℕ) (d : Dev)
      → bus < 256
      → slot < 32
      → func < 8
      → offset < 256
      → let (v, d') = read hw bus slot func offset d in
        (v ≡ bridge.config d bus slot func (offset / 4) / 2 ^ (8 * (offset % 4)))
        × (bridge.config d' ≡ bridge.config d)
  unfolding read
  read-config bus slot func offset d hb hs hf ho =
      let id = construct_identifier bus slot func offset in
      let e = construct_identifier-address bus slot func offset hb hs hf ho in
      let d₁ = hw.out32 0xCF8 (u32 id) d in
      let s = bridge.select d (u32 id) (omega arith) in
      let got =
        bridge.fetch d₁ bus slot func (offset / 4) hb hs hf (omega arith) (omega (arith, s.0, e)) in
      let value : u32 (hw.in32 0xCFC d₁).0 ≡ bridge.config d bus slot func (offset / 4) = omega (
        arith,
        got.0,
        ap (λ c. c bus slot func (offset / 4)) s.1,
        bridge.config_lt d bus slot func (offset / 4),
      ) in
      let low : u8 offset % 4 ≡ offset % 4 = omega arith in
      (ap₂ (λ x y. x / 2 ^ (8 * y)) value low, got.1 ∙ s.1)

  -- The same at a later state with the same configuration.
  read_later :
      (bus slot func offset : ℕ) (d₀ d : Dev)
      → bus < 256
      → slot < 32
      → func < 8
      → offset < 256
      → bridge.config d ≡ bridge.config d₀
      → let (v, d') = read hw bus slot func offset d in
        (v ≡ bridge.config d₀ bus slot func (offset / 4) / 2 ^ (8 * (offset % 4)))
        × (bridge.config d' ≡ bridge.config d₀)
  read_later bus slot func offset d₀ d hb hs hf ho same =
      let r = read-config bus slot func offset d hb hs hf ho in
      (r.0 ∙ ap (λ c. c bus slot func (offset / 4) / 2 ^ (8 * (offset % 4))) same, r.1 ∙ same)

  -- `device_multifunction` tells whether bit 7 of the byte 0x0E, the header type, is set.
  pub device_multifunction-config :
      (bus slot : ℕ) (d : Dev)
      → bus < 256
      → slot < 32
      → let (multi, d') = device_multifunction hw bus slot d in
        (multi ≡ (bit 23 (bridge.config d bus slot 0 3) == 1))
        × (bridge.config d' ≡ bridge.config d)
  unfolding device_multifunction
  device_multifunction-config bus slot d hb hs =
      let r = read-config bus slot 0 0x0E d hb hs (omega arith) (omega arith) in
      let v = (read hw bus slot 0 0x0E d).0 in
      (
        truth-digit 7 v
            ∙ ap (λ x. x == 1) {x = bit 7 v} {y = bit 23 (bridge.config d bus slot 0 3)}
                (omega (arith, r.0)),
        r.1,
      )

  -- `get_device_descriptor` reads the identification of a function: the vendor from the bytes 0 and
  -- 1, the device from 2 and 3, the revision from 8, the interface from 9, the subclass from 10, the
  -- class from 14, which is the header type, and the interrupt from the whole double word 60.
  pub get_device_descriptor-config :
      (bus slot func : ℕ) (d : Dev)
      → bus < 256
      → slot < 32
      → func < 8
      → let (dev, d') = get_device_descriptor hw bus slot func d in
        let word = bridge.config d bus slot func in
        (dev ≡ record {
          interrupt = word 15;
          bus = bus;
          slot = slot;
          function = func;
          vendor_id = word 0 % 2 ^ 16;
          device_id = word 0 / 2 ^ 16;
          class_id = word 3 / 2 ^ 16 % 2 ^ 8;
          subclass_id = word 2 / 2 ^ 16 % 2 ^ 8;
          interface_id = word 2 / 2 ^ 8 % 2 ^ 8;
          revision = word 2 % 2 ^ 8;
        })
        × (bridge.config d' ≡ bridge.config d)
  unfolding get_device_descriptor
  get_device_descriptor-config bus slot func d hb hs hf =
      let word = bridge.config d bus slot func in
      let d₁ = (read hw bus slot func 0x00 d).1 in
      let d₂ = (read hw bus slot func 0x02 d₁).1 in
      let d₃ = (read hw bus slot func 0x0E d₂).1 in
      let d₄ = (read hw bus slot func 0x0A d₃).1 in
      let d₅ = (read hw bus slot func 0x09 d₄).1 in
      let d₆ = (read hw bus slot func 0x08 d₅).1 in
      let r₁ = read_later bus slot func 0x00 d d hb hs hf (omega arith) refl in
      let r₂ = read_later bus slot func 0x02 d d₁ hb hs hf (omega arith) r₁.1 in
      let r₃ = read_later bus slot func 0x0E d d₂ hb hs hf (omega arith) r₂.1 in
      let r₄ = read_later bus slot func 0x0A d d₃ hb hs hf (omega arith) r₃.1 in
      let r₅ = read_later bus slot func 0x09 d d₄ hb hs hf (omega arith) r₄.1 in
      let r₆ = read_later bus slot func 0x08 d d₅ hb hs hf (omega arith) r₅.1 in
      let r₇ = read_later bus slot func 0x3C d d₆ hb hs hf (omega arith) r₆.1 in
      let device : u16 (read hw bus slot func 0x02 d₁).0 ≡ word 0 / 2 ^ 16 =
        omega (arith, r₂.0, bridge.config_lt d bus slot func 0) in
      let interrupt : (read hw bus slot func 0x3C d₆).0 ≡ word 15 = omega (arith, r₇.0) in
      let vendor : u16 (read hw bus slot func 0x00 d).0 ≡ word 0 % 2 ^ 16 = omega (arith, r₁.0) in
      let revision : u8 (read hw bus slot func 0x08 d₅).0 ≡ word 2 % 2 ^ 8 = omega (arith, r₆.0) in
      (rw (vendor, device, interrupt, revision, r₃.0, r₄.0, r₅.0) refl, r₇.1)
