-- ===== src/Boot/Sector/Load.antt =====
-- The kernel's sectors, and the ways in which loading them fails.
use mal_os.Prelude.{
  ℕ, ◌+◌, ◌-◌, ◌*◌, ◌^◌, ◌<◌, ◌≡◌, ◌≢◌, refl, ◌∙◌, ap, true, false, leb, ltb, ◌==◌, ◌&&◌,
  if◌then◌else◌, u8, List, ◌++◌, arith,
}
use mal_os.Boot.Sector.{
  Bios, Real, Loading, loads, hangs, prints, endl, error_traceback, disk_load, disk_error_msg,
  sector_count_error_msg,
}
use mal_os.Boot.Sector.Shows.{
  IsBios, new_line, error_text, Types-trans, prints-Types, endl-Types, error_traceback-Types,
}
use mal_os.Boot.Sector.Display.{IsStream}

module _ {State : Type 0} {bios : Bios State} (law : IsBios bios) where
  -- The message, the new lines around it, and the two numbers are behind what was shown before.
  abbrev pub Hangs : List ℕ → ℕ → ℕ → Real State → Loading State → Type 0
  Hangs message ah dl r out =
      (r' : Real State) × (out ≡ hangs r')
      × (law.shown r'.bios ≡ law.shown r.bios ++ (new_line ++ (message ++ error_text ah dl)))

  error-Hangs :
      (message : List ℕ) (ah dl : ℕ) (r r₁ : Real State)
      → ah < 2 ^ 8
      → dl < 2 ^ 8
      → IsStream r₁.hex_stream
      → law.shown r₁.bios ≡ law.shown r.bios
      → Hangs message ah dl r
          (hangs (error_traceback bios ah dl (prints bios message (endl bios r₁))))
  error-Hangs message ah dl r r₁ ha hd stream same =
      let r₂ = endl bios r₁ in
      let r₃ = prints bios message r₂ in
      let t₁ = endl-Types law r₁ stream in
      let t₂ = prints-Types law message r₂ t₁.stream in
      let t₃ = error_traceback-Types law ah dl r₃ ha hd t₂.stream in
      let all = Types-trans law new_line _ r₁ r₂ _ t₁ (Types-trans law message _ r₂ r₃ _ t₂ t₃) in
      (_, refl, all.shows ∙ ap (λ z. z ++ (new_line ++ (message ++ error_text ah dl))) same)

  -- The sectors stand in the memory, and the rest of it is as before.
  abbrev pub Loaded : ℕ → ℕ → ℕ → Real State → Real State → Type 0
  Loaded dh dl bx r r' =
      (r' ≡ record r { bios = r'.bios; mem = r'.mem })
      × ((p : ℕ)
          → r'.mem p ≡ (
              if leb bx p && ltb p (bx + dh * 512)
              then law.disk r.bios dl (512 + (p - bx))
              else r.mem p))

  -- Whatever the BIOS answers.
  pub disk_load_lem :
      (dh dl bx : ℕ) (r : Real State)
      → dl < 2 ^ 8
      → r.es ≡ 0
      → IsStream r.hex_stream
      → let reply = (bios.read_sectors dh 0 0 2 dl bx r.bios r.mem).0 in
        let out = disk_load bios dh dl bx r in
        (reply.carry ≡ true → Hangs disk_error_msg (u8 reply.ah) dl r out)
        × (reply.carry ≡ false
            → u8 reply.al ≢ dh
            → Hangs sector_count_error_msg (u8 reply.ah) dl r out)
        × (reply.carry ≡ false
            → u8 reply.al ≡ dh
            → (r' : Real State) × (out ≡ loads r') × Loaded dh dl bx r r')
  unfolding disk_load
  disk_load_lem dh dl bx r hd flat stream =
      let there : r.es * 16 + bx ≡ bx = omega arith in
      let answer = bios.read_sectors dh 0 0 2 dl bx r.bios r.mem in
      let r₁ : Real State = record r { bios = answer.1; mem = answer.2 } in
      let (quiet, _, done) = law.reads dh dl bx r.bios r.mem in
      let ah = u8 answer.0.ah in
      rw there (
        λ failed. rw failed (error-Hangs disk_error_msg ah dl r r₁ (omega arith) hd stream quiet),
        λ fine other.
            let e : (u8 answer.0.al == dh) ≡ false = ground arith in
            rw (fine, e)
              (error-Hangs sector_count_error_msg ah dl r r₁ (omega arith) hd stream quiet),
        λ fine all.
            let e : (u8 answer.0.al == dh) ≡ true = ground arith in
            (r₁, rw (fine, e) refl, (refl, done fine all)),
      )
