-- ===== src/Interrupts/Isr/Pic.antt =====
-- The two 8259A interrupt controllers, which are not part of the repository: their documented
-- behaviour as laws, and what `irq_pic_remap` and `send_eoi` do to them.
use mal_os.Prelude.{
  ℕ, ◌+◌, ◌-◌, ◌%◌, ◌<◌, ◌≡◌, refl, ◌∙◌, ap, ap₂, leb, if◌then◌else◌, arith, u8, u16, Bool-cases,
  inl, inr,
}
use mal_os.Kernel.Ports.{Ports, ports_outb}
use mal_os.Kernel.State.{Kernel}
use mal_os.Interrupts.Isr.{irq_pic_remap, send_eoi}

-- What a controller does with the next byte at its data port: take it as its mask, or as one of the
-- words of an initialisation.
pub data Phase : Type 0 where
  ready awaits_icw2 awaits_icw3 awaits_icw4 : Phase

-- `vector` is that of request 0, `cascade` the third word and `mode` the fourth.
pub record Pic : Type 0 where
  pub phase : Phase
  pub vector : ℕ
  pub cascade : ℕ
  pub mode : ℕ
  pub mask : ℕ

-- The first word starts an initialisation with all requests unmasked.
abbrev pub start : Pic → Pic
start p = record p { phase = awaits_icw2; mask = 0 }

-- A byte at the data port. The vector's three low bits are the request's number.
abbrev pub datum : Phase → ℕ → Pic → Pic
datum ready v p = record p { mask = v }
datum awaits_icw2 v p = record p { phase = awaits_icw3; vector = v - v % 8 }
datum awaits_icw3 v p = record p { phase = awaits_icw4; cascade = v }
datum awaits_icw4 v p = record p { phase = ready; mode = v }

-- `master_serves` and `slave_serves` count the interrupts a controller holds for being served.
pub record IsPics {Dev : Type 0} (hw : Ports Dev) : Type 0 where
  pub master : Dev → Pic
  pub slave : Dev → Pic
  pub master_serves : Dev → ℕ
  pub slave_serves : Dev → ℕ
  pub start_master :
      (d : Dev)
      → let d' = hw.out8 0x20 0x11 d in (master d' ≡ start (master d)) × (slave d' ≡ slave d)
  pub start_slave :
      (d : Dev)
      → let d' = hw.out8 0xA0 0x11 d in (master d' ≡ master d) × (slave d' ≡ start (slave d))
  pub datum_master :
      (d : Dev) (v : ℕ)
      → v < 256
      → let d' = hw.out8 0x21 v d in
        (master d' ≡ datum (master d).phase v (master d)) × (slave d' ≡ slave d)
  pub datum_slave :
      (d : Dev) (v : ℕ)
      → v < 256
      → let d' = hw.out8 0xA1 v d in
        (master d' ≡ master d) × (slave d' ≡ datum (slave d).phase v (slave d))
  pub read_master :
      (d : Dev)
      → (master d).phase ≡ ready
      → let (v, d') = hw.in8 0x21 d in
        (v ≡ (master d).mask) × (master d' ≡ master d) × (slave d' ≡ slave d)
  pub read_slave :
      (d : Dev)
      → (slave d).phase ≡ ready
      → let (v, d') = hw.in8 0xA1 d in
        (v ≡ (slave d).mask) × (master d' ≡ master d) × (slave d' ≡ slave d)
  pub eoi_master :
      (d : Dev)
      → let d' = hw.out8 0x20 0x20 d in
        (master_serves d' ≡ master_serves d - 1)
        × (slave_serves d' ≡ slave_serves d)
        × (master d' ≡ master d)
        × (slave d' ≡ slave d)
  pub eoi_slave :
      (d : Dev)
      → let d' = hw.out8 0xA0 0x20 d in
        (master_serves d' ≡ master_serves d)
        × (slave_serves d' ≡ slave_serves d - 1)
        × (master d' ≡ master d)
        × (slave d' ≡ slave d)

-- A controller initialised for vectors from `block` on.
abbrev pub remapped : ℕ → ℕ → Pic → Pic
remapped block cascade p = record {
  phase = ready;
  vector = block;
  cascade = cascade;
  mode = 0x01;
  mask = p.mask;
}

-- An initialised controller.
abbrev words : ℕ → ℕ → ℕ → Pic
words cascade vector mask = record {
  phase = ready;
  vector = vector;
  cascade = cascade;
  mode = 0x01;
  mask = mask;
}

vector_lem : (block : ℕ) → block < 256 → block % 8 ≡ 0 → u8 block - u8 block % 8 ≡ block
vector_lem block h w = omega arith

module _ {Dev : Type 0} {hw : Ports Dev} (pics : IsPics hw) where
  -- A byte to each data port.
  data_lem :
      (d : Dev) (v w : ℕ) {p q : Pic}
      → pics.master d ≡ p
      → pics.slave d ≡ q
      → let d' = ports_outb hw 0xA1 w (ports_outb hw 0x21 v d) in
        (pics.master d' ≡ datum p.phase (u8 v) p) × (pics.slave d' ≡ datum q.phase (u8 w) q)
  data_lem d v w m n =
      let s₁ = pics.datum_master d (u8 v) (omega arith) in
      let s₂ = pics.datum_slave (hw.out8 0x21 (u8 v) d) (u8 w) (omega arith) in
      (
        s₂.0 ∙ s₁.0 ∙ ap (λ p. datum p.phase (u8 v) p) m,
        s₂.1 ∙ ap (λ q. datum q.phase (u8 w) q) (s₁.1 ∙ n),
      )

  -- If no controller is in an initialisation, and the blocks are multiples of 8, `irq_pic_remap` maps
  -- the requests of the master from `block_a` on and those of the slave from `block_b` on, tells
  -- each how they are wired, and leaves their masks as they were.
  pub irq_pic_remap_lem :
      (block_a block_b : ℕ) (k : Kernel Dev)
      → block_a < 256
      → block_b < 256
      → block_a % 8 ≡ 0
      → block_b % 8 ≡ 0
      → (pics.master k.dev).phase ≡ ready
      → (pics.slave k.dev).phase ≡ ready
      → (pics.master k.dev).mask < 256
      → (pics.slave k.dev).mask < 256
      → let k' = irq_pic_remap hw block_a block_b k in
        (pics.master k'.dev ≡ remapped block_a 0x04 (pics.master k.dev))
        × (pics.slave k'.dev ≡ remapped block_b 0x02 (pics.slave k.dev))
        × (k' ≡ record k { dev = k'.dev })
  unfolding irq_pic_remap
  irq_pic_remap_lem block_a block_b k ha hb wa wb pa pb ma mb =
      let a = (hw.in8 0x21 k.dev).0 in
      let d₁ = (hw.in8 0x21 k.dev).1 in
      let b = (hw.in8 0xA1 d₁).0 in
      let d₂ = (hw.in8 0xA1 d₁).1 in
      let d₃ = hw.out8 0x20 0x11 d₂ in
      let d₄ = hw.out8 0xA0 0x11 d₃ in
      let r₁ = pics.read_master k.dev pa in
      let r₂ = pics.read_slave d₁ (ap (λ p. p.phase) r₁.2 ∙ pb) in
      let mask_a : u8 (u16 (u8 a)) ≡ (pics.master k.dev).mask = omega (arith, r₁.0) in
      let mask_b : u8 (u16 (u8 b)) ≡ (pics.slave k.dev).mask =
        omega (arith, r₂.0, ap (λ p. p.mask) r₁.2) in
      let s₃ = pics.start_master d₂ in
      let s₄ = pics.start_slave d₃ in
      let m₄ = s₄.0 ∙ s₃.0 ∙ ap start (r₂.1 ∙ r₁.1) in
      let n₄ = s₄.1 ∙ ap start (s₃.1 ∙ r₂.2 ∙ r₁.2) in
      let (m₆, n₆) = data_lem d₄ block_a block_b m₄ n₄ in
      let (m₈, n₈) = data_lem _ 0x04 0x02 m₆ n₆ in
      let (m₁₀, n₁₀) = data_lem _ 0x01 0x01 m₈ n₈ in
      let (m₁₂, n₁₂) = data_lem _ (u16 (u8 a)) (u16 (u8 b)) m₁₀ n₁₀ in
      (
        m₁₂ ∙ ap₂ (words 0x04) (vector_lem block_a ha wa) mask_a,
        n₁₂ ∙ ap₂ (words 0x02) (vector_lem block_b hb wb) mask_b,
        refl,
      )

  -- If the interrupt requests in service are those of `int_no` above `m` and `s` others, the commands
  -- of `irq_handler` end exactly that one: the slave's too from vector 40 on.
  pub send_eoi_lem :
      (int_no m s : ℕ) (k : Kernel Dev)
      → pics.master_serves k.dev ≡ m + 1
      → pics.slave_serves k.dev ≡ (if leb 40 int_no then s + 1 else s)
      → let k' = send_eoi hw int_no k in
        (pics.master_serves k'.dev ≡ m)
        × (pics.slave_serves k'.dev ≡ s)
        × (k' ≡ record k { dev = k'.dev })
  unfolding send_eoi
  send_eoi_lem int_no m s k hm hs = elim (Bool-cases (leb 40 int_no)) [
    | inl from_slave ↦
        let e₁ = pics.eoi_slave k.dev in
        let e₂ = pics.eoi_master (hw.out8 0xA0 0x20 k.dev) in ground (arith, e₁, e₂)
    | inr not_slave ↦ let e = pics.eoi_master k.dev in ground (arith, e)
  ]
