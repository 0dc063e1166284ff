-- ===== src/Boot/Sector/Boots.antt =====
-- The whole of the boot sector.
use mal_os.Prelude.{
  ℕ, ◌+◌, ◌-◌, ◌*◌, ◌^◌, ◌≤◌, ◌<◌, ◌≡◌, ◌≢◌, refl, ◌∙◌, ap, sym, subst, true, false, leb, ltb, ◌&&◌,
  if◌then◌else◌, u8, List, ◌++◌, arith,
}
use mathlib.Core.List.{append_assoc}
use mal_os.Libc.Memory.{Mem}
use mal_os.Boot.Gdt.{gdt, Stands}
use mal_os.Boot.Sector.{
  Bios, Labels, Real, Protected, Booting, enters, fails, loads, kernel_offset, msg_real_mode,
  msg_load_kern, disk_error_msg, sector_count_error_msg, prints, endl, disk_load, load_kernel,
  go_on, boot,
}
use mal_os.Boot.Sector.Display.{IsStream}
use mal_os.Boot.Sector.Shows.{
  IsBios, new_line, error_text, Types, Types-trans, prints-Types, endl-Types,
}
use mal_os.Boot.Sector.Load.{Hangs, Loaded, disk_load_lem}
use mal_os.Boot.Sector.Enter.{IsPlaced, IsEntered, enter-IsEntered}

-- What is shown before the disk is read.
abbrev pub start_text : List ℕ
start_text = msg_real_mode ++ (new_line ++ msg_load_kern)

module _ {State : Type 0} (bios : Bios State) where
  -- The machine when the disk is read.
  abbrev pub ready : ℕ → Real State → Real State
  ready dl r =
      prints bios msg_load_kern
        (endl bios (prints bios msg_real_mode (record r { boot_drive = dl })))

not_loaded :
    (x y a : ℕ)
    → 0x7c00 ≤ a
    → (if leb kernel_offset a && ltb a (kernel_offset + 34 * 512) then x else y) ≡ y
not_loaded x y a h = ground arith

loaded :
    (x y i : ℕ)
    → i < 34 * 512
    → (if leb kernel_offset (kernel_offset + i)
          && ltb (kernel_offset + i) (kernel_offset + 34 * 512)
        then x
        else y)
      ≡ x
loaded x y i h = ground arith

module _ {State : Type 0} {bios : Bios State} (law : IsBios bios) where
  ready-Types :
      (dl : ℕ) (r : Real State)
      → IsStream r.hex_stream
      → Types law start_text (record r { boot_drive = dl }) (ready bios dl r)
  ready-Types dl r stream =
      let r₀ : Real State = record r { boot_drive = dl } in
      let r₁ = prints bios msg_real_mode r₀ in
      let r₂ = endl bios r₁ in
      let t₁ = prints-Types law msg_real_mode r₀ stream in
      let t₂ = endl-Types law r₁ t₁.stream in
      let t₃ = prints-Types law msg_load_kern r₂ t₂.stream in
      Types-trans law msg_real_mode _ r₀ r₁ _ t₁ (Types-trans law new_line _ r₁ r₂ _ t₂ t₃)

  boot-disk_load :
      (at : Labels) (cr0 dl : ℕ) (r : Real State)
      → IsStream r.hex_stream
      → boot bios at cr0 dl r ≡ go_on at cr0 (disk_load bios 34 dl kernel_offset (ready bios dl r))
  unfolding boot load_kernel
  boot-disk_load at cr0 dl r stream =
      let r₁ = prints bios msg_real_mode (record r { boot_drive = dl }) in
      let drive : r₁.boot_drive ≡ dl =
        ap (λ z. z.boot_drive)
          (prints-Types law msg_real_mode (record r { boot_drive = dl }) stream).same in
      ap (λ d. go_on at cr0 (disk_load bios 34 d kernel_offset (ready bios dl r))) drive

  -- An endless loop, with a message behind the start's text.
  abbrev pub Fails : List ℕ → ℕ → ℕ → Real State → Booting State → Type 0
  Fails message ah dl r out =
      (r' : Real State) × (out ≡ fails r')
      × (law.shown r'.bios
          ≡ law.shown r.bios ++ (start_text ++ (new_line ++ (message ++ error_text ah dl))))

  Hangs-Fails :
      (message : List ℕ) (at : Labels) (cr0 ah dl : ℕ) (r : Real State)
      → IsStream r.hex_stream
      → Hangs law message ah dl
          (ready bios dl r)
          (disk_load bios 34 dl kernel_offset (ready bios dl r))
      → Fails message ah dl r (boot bios at cr0 dl r)
  Hangs-Fails message at cr0 ah dl r stream (r', e, shown) = (
    r',
    boot-disk_load at cr0 dl r stream ∙ ap (go_on at cr0) e,
    shown
        ∙ ap (λ z. z ++ (new_line ++ (message ++ error_text ah dl))) (ready-Types dl r stream).shows
        ∙ append_assoc (law.shown r.bios) start_text _,
  )

  -- The kernel's 34 sectors stand where it is called, and the machine is ready for it.
  abbrev pub Enters : Labels → ℕ → Real State → Booting State → Type 0
  Enters at dl r out =
      (p : Protected) × (m : Mem) × (out ≡ enters p)
      × IsEntered at m p
      × ((i : ℕ) → i < 34 * 512 → p.mem (kernel_offset + i) ≡ law.disk r.bios dl (512 + i))

  Loaded-Enters :
      (at : Labels) (cr0 dl : ℕ) (r r' : Real State)
      → IsStream r.hex_stream
      → IsPlaced at
      → Stands gdt at.gdt_start r.mem
      → Loaded law 34 dl kernel_offset (ready bios dl r) r'
      → Enters at dl r (go_on at cr0 (loads r'))
  Loaded-Enters at cr0 dl r r' stream placed stands (_, found) =
      let t = ready-Types dl r stream in
      let mem : (ready bios dl r).mem ≡ r.mem = ap (λ z. z.mem) t.same in
      let there : Stands gdt at.gdt_start r'.mem = λ i b e.
        found (at.gdt_start + i)
        ∙ not_loaded _ _ (at.gdt_start + i) (omega (arith, placed.from))
        ∙ ap (λ f. f (at.gdt_start + i)) mem
        ∙ stands i b e in
      let entered = enter-IsEntered at cr0 r' placed there in
      (
        _,
        r'.mem,
        refl,
        entered,
        λ i h.
            entered.below (kernel_offset + i) (omega arith)
            ∙ found (kernel_offset + i)
            ∙ loaded _ _ i h
            ∙ ap (λ f. f dl (512 + (kernel_offset + i - kernel_offset))) t.disks
            ∙ ap (law.disk r.bios dl) (omega arith),
      )

  -- With the BIOS as documented and es 0, the boot sector shows its two messages and asks for 34
  -- sectors. If the BIOS reports an error, or another number of sectors, it shows which, with the error
  -- code and the drive, and stops. Otherwise the machine comes to `kmain` in protected mode with flat
  -- segments, with the 34 sectors behind the first at 0x1000.
  pub boot_lem :
      (at : Labels) (cr0 dl : ℕ) (r : Real State)
      → dl < 2 ^ 8
      → r.es ≡ 0
      → IsStream r.hex_stream
      → IsPlaced at
      → Stands gdt at.gdt_start r.mem
      → let k = ready bios dl r in
        let reply = (bios.read_sectors 34 0 0 2 dl kernel_offset k.bios k.mem).0 in
        let out = boot bios at cr0 dl r in
        (reply.carry ≡ true → Fails disk_error_msg (u8 reply.ah) dl r out)
        × (reply.carry ≡ false
            → u8 reply.al ≢ 34
            → Fails sector_count_error_msg (u8 reply.ah) dl r out)
        × (reply.carry ≡ false → u8 reply.al ≡ 34 → Enters at dl r out)
  boot_lem at cr0 dl r hd flat stream placed stands =
      let k = ready bios dl r in
      let t = ready-Types dl r stream in
      let es : k.es ≡ 0 = ap (λ z. z.es) t.same ∙ flat in
      let (failed, short, whole) = disk_load_lem law 34 dl kernel_offset k hd es t.stream in
      (
        λ carry. Hangs-Fails disk_error_msg at cr0 _ dl r stream (failed carry),
        λ carry other. Hangs-Fails sector_count_error_msg at cr0 _ dl r stream (short carry other),
        λ carry all.
            let (r', e, there) = whole carry all in
            subst (Enters at dl r) (sym (boot-disk_load at cr0 dl r stream ∙ ap (go_on at cr0) e))
              (Loaded-Enters at cr0 dl r r' stream placed stands there),
      )
