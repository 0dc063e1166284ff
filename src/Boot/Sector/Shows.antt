-- ===== src/Boot/Sector/Shows.antt =====
-- What the boot sector shows with the BIOS.
use mal_os.Prelude.{
  ℕ, ◌+◌, ◌-◌, ◌*◌, ◌^◌, ◌<◌, ◌≡◌, refl, ◌∙◌, ap, sym, subst, false, leb, ◌&&◌, ltb, if◌then◌else◌,
  u8, List, [], ◌∷◌, ◌++◌, arith,
}
use mathlib.Core.List.{append_assoc, append-nil}
use mal_os.Libc.Memory.{Mem}
use mal_os.Boot.Sector.{
  Bios, Real, ror, hex2ascii, prints, endl, printh, error_traceback, fault_code_msg, fault_disk_msg,
}
use mal_os.Boot.Sector.Display.{IsStream, hex_text, read_hex, hex2ascii_lem, read_hex-hex_text}

-- A new line, and what `error_traceback` shows.
abbrev pub new_line : List ℕ
new_line = 0x0a ∷ 0x0d ∷ []

abbrev pub error_text : ℕ → ℕ → List ℕ
error_text ah dl = new_line ++ (fault_code_msg ++ (hex_text ah ++ (fault_disk_msg ++ hex_text dl)))

-- What the theorems ask of the BIOS, which is not part of the repository: `shown` is what the teletype
-- has been given, `disk` the bytes of a drive. Reading shows nothing and changes no disk; if it reports
-- no error and the number of sectors, they stand in the memory from the address on, and the rest of
-- the memory is as before. Sector 2 of cylinder 0 and head 0 begins at byte 512.
pub record IsBios {State : Type 0} (bios : Bios State) : Type 0 where
  pub shown : State → List ℕ
  pub disk : State → ℕ → ℕ → ℕ
  pub types :
      (c : ℕ) (b : State)
      → let b' = bios.teletype c b in (shown b' ≡ shown b ++ c ∷ []) × (disk b' ≡ disk b)
  pub reads :
      (count drive address : ℕ) (b : State) (m : Mem)
      → let (reply, b', m') = bios.read_sectors count 0 0 2 drive address b m in
        (shown b' ≡ shown b)
        × (disk b' ≡ disk b)
        × (reply.carry ≡ false
            → u8 reply.al ≡ count
            → (p : ℕ)
            → m' p ≡ (
                if leb address p && ltb p (address + count * 512)
                then disk b drive (512 + (p - address))
                else m p))

module _ {State : Type 0} {bios : Bios State} (law : IsBios bios) where
  -- The text has been shown, and nothing but the screen and HEX_STREAM changes.
  pub record Types (text : List ℕ) (r r' : Real State) : Type 0 where
    pub same : r' ≡ record r { bios = r'.bios; hex_stream = r'.hex_stream }
    pub shows : law.shown r'.bios ≡ law.shown r.bios ++ text
    pub disks : law.disk r'.bios ≡ law.disk r.bios
    pub stream : IsStream r'.hex_stream

  pub Types-trans :
      (s t : List ℕ) (r r' r'' : Real State) → Types s r r' → Types t r' r'' → Types (s ++ t) r r''
  Types-trans s t r r' r'' a b = record {
    same =
        b.same
        ∙ ap (λ (z : Real State). record z { bios = r''.bios; hex_stream = r''.hex_stream }) a.same;
    shows = b.shows ∙ ap (λ z. z ++ t) a.shows ∙ append_assoc (law.shown r.bios) s t;
    disks = b.disks ∙ a.disks;
    stream = b.stream;
  }

  pub prints-Types :
      (s : List ℕ) (r : Real State) → IsStream r.hex_stream → Types s r (prints bios s r)
  unfolding prints
  prints-Types [] r stream = record {
    same = refl;
    shows = sym (append-nil (law.shown r.bios));
    disks = refl;
    stream = stream;
  }
  prints-Types (c ∷ s) r stream =
      let r₁ : Real State = record r { bios = bios.teletype c r.bios } in
      Types-trans (c ∷ []) s r r₁ (prints bios s r₁)
        (record {
          same = refl;
          shows = (law.types c r.bios).0;
          disks = (law.types c r.bios).1;
          stream = stream;
        })
        (prints-Types s r₁ stream)

  pub endl-Types : (r : Real State) → IsStream r.hex_stream → Types new_line r (endl bios r)
  unfolding endl
  endl-Types r stream =
      let first = law.types 0x0a r.bios in
      let second = law.types 0x0d (bios.teletype 0x0a r.bios) in
      record {
        same = refl;
        shows =
            second.0
            ∙ ap (λ z. z ++ 0x0d ∷ []) first.0
            ∙ append_assoc (law.shown r.bios) (0x0a ∷ []) (0x0d ∷ []);
        disks = second.1 ∙ first.1;
        stream = stream;
      }

  -- `printh` of a word shows "0x" and four digits, whatever digits HEX_STREAM had, and they read as the
  -- word.
  pub printh-Types :
      (w : ℕ) (r : Real State)
      → w < 2 ^ 16
      → IsStream r.hex_stream
      → Types (hex_text w) r (printh bios w r) × (read_hex (hex_text w) ≡ w)
  unfolding printh
  printh-Types w r h stream =
      let text = hex2ascii 4 0 w r.hex_stream in
      let e = hex2ascii_lem w r.hex_stream h stream in
      let r₁ : Real State = record r { hex_stream = text } in
      let shown_there : IsStream text = (_, _, _, _, e) in
      let p = prints-Types text r₁ shown_there in
      (
        record {
          same = p.same;
          shows = p.shows ∙ ap (λ z. law.shown r.bios ++ z) e;
          disks = p.disks;
          stream = p.stream;
        },
        read_hex-hex_text w h,
      )

  pub error_traceback-Types :
      (ah dl : ℕ) (r : Real State)
      → ah < 2 ^ 8
      → dl < 2 ^ 8
      → IsStream r.hex_stream
      → Types (error_text ah dl) r (error_traceback bios ah dl r)
  unfolding error_traceback
  error_traceback-Types ah dl r ha hd stream =
      let r₁ = endl bios r in
      let r₂ = prints bios fault_code_msg r₁ in
      let r₃ = printh bios (ror (ah * 2 ^ 8) 8) r₂ in
      let r₄ = prints bios fault_disk_msg r₃ in
      let r₅ = printh bios dl r₄ in
      let turned : ror (ah * 2 ^ 8) 8 ≡ ah = omega arith in
      let t₁ = endl-Types r stream in
      let t₂ = prints-Types fault_code_msg r₁ t₁.stream in
      let t₃ =
        subst (λ v. Types (hex_text v) r₂ r₃) turned
          (printh-Types (ror (ah * 2 ^ 8) 8) r₂ (omega arith) t₂.stream).0 in
      let t₄ = prints-Types fault_disk_msg r₃ t₃.stream in
      let t₅ = (printh-Types dl r₄ (omega arith) t₄.stream).0 in
      let s₄ = Types-trans fault_disk_msg (hex_text dl) r₃ r₄ r₅ t₄ t₅ in
      let s₃ = Types-trans (hex_text ah) _ r₂ r₃ r₅ t₃ s₄ in
      let s₂ = Types-trans fault_code_msg _ r₁ r₂ r₅ t₂ s₃ in Types-trans new_line _ r r₁ r₅ t₁ s₂
