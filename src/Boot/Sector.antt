-- ===== src/Boot/Sector.antt =====
-- BIOS/boot: the boot sector, from its first instruction in real mode to the call of the kernel, and
-- BIOS/kernel/kernel_entry.asm. What the BIOS does on `int 0x10` and `int 0x13` is not part of the
-- repository: it is a parameter, the record `Bios`. The addresses that the assembler gives to labels
-- and to the instructions behind calls are the parameter `Labels`. Strings are lists of characters
-- before their NUL, and an endless `jmp $` is the result `hangs`. The stack of real mode, and the
-- bytes of the sector itself, are not written to in the memory.
pub mod Display
pub mod Shows
pub mod Load
pub mod Enter
pub mod Boots
mod Tests
use mal_os.Prelude.{
  ℕ, zero, suc, ◌+◌, ◌-◌, ◌*◌, ◌/◌, ◌%◌, ◌^◌, Bool, false, ◌==◌, leb, if◌then◌else◌, bit_or, u8,
  u32, List, [], ◌∷◌, codes,
}
use mal_os.Libc.Memory.{Mem, store}
use mal_os.Kernel.Processor.{store_double}
use mal_os.Boot.Gdt.{code_seg, data_seg}

-- What `int 0x13` leaves in the carry flag, in ah and in al.
pub record Reply : Type 0 where
  pub carry : Bool
  pub ah : ℕ
  pub al : ℕ

-- `teletype` is `int 0x10` with 0x0e in ah. `read_sectors` is `int 0x13` with 0x02 in ah: its arguments
-- are al, ch, dh, cl, dl and the address es:bx.
pub record Bios (State : Type 0) : Type 0 where
  pub teletype : ℕ → State → State
  pub read_sectors :
      (count cylinder head sector drive address : ℕ) → State → Mem → Reply × State × Mem

-- `gdt_start`, `BEGIN_PM` and `kmain`, and where `call BEGIN_PM`, `call KERNEL_OFFSET` and `call kmain` return to.
pub record Labels : Type 0 where
  pub gdt_start : ℕ
  pub begin_pm : ℕ
  pub after_begin_pm : ℕ
  pub after_kernel : ℕ
  pub after_kmain : ℕ
  pub kmain : ℕ

-- The machine in real mode. The boot sector does not set es.
pub record Real (State : Type 0) : Type 0 where
  pub bios : State
  pub mem : Mem
  pub es : ℕ
  pub boot_drive : ℕ
  pub hex_stream : List ℕ

-- The machine in protected mode, with the registers that the boot sector sets.
pub record Protected : Type 0 where
  pub mem : Mem
  pub gdtr_limit : ℕ
  pub gdtr_base : ℕ
  pub cr0 : ℕ
  pub interrupts : Bool
  pub cs : ℕ
  pub ds : ℕ
  pub ss : ℕ
  pub es : ℕ
  pub fs : ℕ
  pub gs : ℕ
  pub esp : ℕ
  pub ebp : ℕ
  pub eip : ℕ

abbrev pub kernel_offset : ℕ
kernel_offset = 0x1000

abbrev pub msg_real_mode : List ℕ
msg_real_mode = codes "Running MBR in 16-bit real mode"

abbrev pub msg_prot_mode : List ℕ
msg_prot_mode = codes "Landed in 32-bit protected mode    "

abbrev pub msg_load_kern : List ℕ
msg_load_kern = codes "Loading kernel"

abbrev pub fault_code_msg : List ℕ
fault_code_msg = codes "Error code: "

abbrev pub fault_disk_msg : List ℕ
fault_disk_msg = codes "  From disk: "

abbrev pub disk_error_msg : List ℕ
disk_error_msg = codes "Disk read error"

abbrev pub sector_count_error_msg : List ℕ
sector_count_error_msg = codes "Could not read all requested sectors"

-- `ror` of a word of 16 bits.
abbrev pub ror : ℕ → ℕ → ℕ
ror x k = x / 2 ^ k + x % 2 ^ k * 2 ^ (16 - k)

abbrev pub hex_ascii : ℕ → ℕ
hex_ascii digit = let al = digit + 0x30 in if leb al 0x39 then al else al + 0x07

abbrev pub set_at : ℕ → ℕ → List ℕ → List ℕ
set_at i v [] = []
set_at zero v (x ∷ xs) = v ∷ xs
set_at (suc i) v (x ∷ xs) = x ∷ set_at i v xs

-- `_hex2asciih` and `_outstreamh`, with the rounds that are left.
unfoldable pub hex2ascii : ℕ → ℕ → ℕ → List ℕ → List ℕ
hex2ascii zero cx dx stream = stream
hex2ascii (suc left) cx dx stream =
    hex2ascii left (cx + 1) (ror dx 4) (set_at (5 - cx) (hex_ascii (dx % 2 ^ 4)) stream)

-- How loading ends: behind the call of `disk_load`, or in an endless loop.
pub data Loading (State : Type 0) : Type 0 where
  loads hangs : Real State → Loading State

pub data Booting (State : Type 0) : Type 0 where
  enters : Protected → Booting State
  fails : Real State → Booting State

module _ {State : Type 0} (bios : Bios State) where
  unfoldable pub prints : List ℕ → Real State → Real State
  prints [] r = r
  prints (c ∷ s) r = prints s (record r { bios = bios.teletype c r.bios })

  unfoldable pub endl : Real State → Real State
  endl r = record r { bios = bios.teletype 0x0d (bios.teletype 0x0a r.bios) }

  unfoldable pub printh : ℕ → Real State → Real State
  printh dx r =
      let stream = hex2ascii 4 0 dx r.hex_stream in prints stream (record r { hex_stream = stream })

  unfoldable pub error_traceback : ℕ → ℕ → Real State → Real State
  error_traceback ah dl r =
      let r₁ = prints fault_code_msg (endl r) in
      let r₂ = printh (ror (ah * 2 ^ 8) 8) r₁ in printh dl (prints fault_disk_msg r₂)

  -- With al, dh and dl: the sectors read, those asked for, and the drive.
  unfoldable pub disk_load : ℕ → ℕ → ℕ → Real State → Loading State
  disk_load dh dl bx r =
      let (reply, b, mem) = bios.read_sectors dh 0 0 2 dl (r.es * 16 + bx) r.bios r.mem in
      let r₁ : Real State = record r { bios = b; mem = mem } in
      if reply.carry
      then hangs (error_traceback (u8 reply.ah) dl (prints disk_error_msg (endl r₁)))
      else if u8 reply.al == dh
      then loads r₁
      else hangs (error_traceback (u8 reply.ah) dl (prints sector_count_error_msg (endl r₁)))

  unfoldable pub load_kernel : Real State → Loading State
  load_kernel r = disk_load 34 r.boot_drive kernel_offset (prints msg_load_kern (endl r))

-- `call`, with the address behind it.
abbrev pub call : ℕ → ℕ → Protected → Protected
call target back p = record p {
  esp = u32 (p.esp + 2 ^ 32 - 4);
  mem = store_double p.mem (u32 (p.esp + 2 ^ 32 - 4)) back;
  eip = target;
}

-- Up to the call of BEGIN_PM, with what was in cr0.
unfoldable pub switch_to_pm : {State : Type 0} → Labels → ℕ → Real State → Protected
switch_to_pm at cr0 r = call at.begin_pm at.after_begin_pm (record {
  mem = r.mem;
  gdtr_limit = 8 * 3 - 1;
  gdtr_base = at.gdt_start;
  cr0 = bit_or cr0 0x1;
  interrupts = false;
  cs = code_seg;
  ds = data_seg;
  ss = data_seg;
  es = data_seg;
  fs = data_seg;
  gs = data_seg;
  esp = 0x90000;
  ebp = 0x90000;
  eip = 0;
})

-- `edx`, the address of the next cell, is the first argument.
unfoldable pub print_string_pm : ℕ → List ℕ → Mem → Mem
print_string_pm edx [] m = m
print_string_pm edx (c ∷ s) m = print_string_pm (edx + 2) s (store (store m edx c) (edx + 1) 0x0f)

-- BEGIN_PM up to the call of the kernel, and its first instruction.
unfoldable pub begin_pm : Labels → Protected → Protected
begin_pm at p =
    call kernel_offset at.after_kernel
      (record p { mem = print_string_pm 0xb8000 msg_prot_mode p.mem })

unfoldable pub kernel_entry : Labels → Protected → Protected
kernel_entry at p = call at.kmain at.after_kmain p

-- After the call of `load_kernel`.
abbrev pub go_on : {State : Type 0} → Labels → ℕ → Loading State → Booting State
go_on at cr0 (hangs r) = fails r
go_on at cr0 (loads r) = enters (kernel_entry at (begin_pm at (switch_to_pm at cr0 r)))

unfoldable pub boot : {State : Type 0} → Bios State → Labels → ℕ → ℕ → Real State → Booting State
boot bios at cr0 dl r =
    go_on at cr0 (load_kernel bios (prints bios msg_real_mode (record r { boot_drive = dl })))
