-- ===== src/Kernel/Processor.antt =====
-- The 32-bit processor that the assembly of BIOS/kernel/interrupt.asm is written for: its registers
-- beside the kernel's state, which holds the memory and EFLAGS, and the instructions that the file
-- uses. A word on the stack is four bytes, low byte first. Each instruction is that of the processor's
-- documentation.
pub mod Stack
use mal_os.Prelude.{
  ℕ, ◌+◌, ◌-◌, ◌*◌, ◌/◌, ◌%◌, ◌^◌, bit_and, bit_or, ltb, if◌then◌else◌, u16, u32, not32, ◌<<◌, List,
  [], ◌∷◌,
}
use mal_os.Libc.Memory.{Mem, store}
use mal_os.Kernel.State.{Kernel}

pub record Machine (Dev : Type 0) : Type 0 where
  pub kernel : Kernel Dev
  pub eax : ℕ
  pub ecx : ℕ
  pub edx : ℕ
  pub ebx : ℕ
  pub esp : ℕ
  pub ebp : ℕ
  pub esi : ℕ
  pub edi : ℕ
  pub eip : ℕ
  pub cs : ℕ
  pub ds : ℕ
  pub es : ℕ
  pub fs : ℕ
  pub gs : ℕ

unfoldable pub load_double : Mem → ℕ → ℕ
load_double m a = m a + m (a + 1) * 2 ^ 8 + m (a + 2) * 2 ^ 16 + m (a + 3) * 2 ^ 24

unfoldable pub store_double : Mem → ℕ → ℕ → Mem
store_double m a v =
    store
      (store (store (store m a (v % 2 ^ 8)) (a + 1) (v / 2 ^ 8 % 2 ^ 8)) (a + 2)
        (v / 2 ^ 16 % 2 ^ 8))
      (a + 3) (v / 2 ^ 24 % 2 ^ 8)

-- The interrupt flag, and the direction flag.
abbrev pub flag_if : ℕ
flag_if = 1 << 9

abbrev pub flag_df : ℕ
flag_df = 1 << 10

pub data Instruction : Type 0 where
  cli sti cld : Instruction
  push_byte : ℕ → Instruction
  push_eax push_esp pop_eax pop_ebx pusha popa : Instruction
  mov_ax_ds : Instruction
  mov_ax : ℕ → Instruction
  mov_ds_ax mov_es_ax mov_fs_ax mov_gs_ax : Instruction
  mov_ds_bx mov_es_bx mov_fs_bx mov_gs_bx : Instruction
  add_esp : ℕ → Instruction
  iret : Instruction

module _ {Dev : Type 0} where
  abbrev pub with_mem : Mem → Kernel Dev → Kernel Dev
  with_mem mem k = record k { mem = mem }

  abbrev pub with_flags : ℕ → Kernel Dev → Kernel Dev
  with_flags eflags k = record k { eflags = eflags }

  unfoldable pub push : ℕ → Machine Dev → Machine Dev
  push v m =
      let esp = u32 (m.esp + 2 ^ 32 - 4) in
      record m { esp = esp; kernel = with_mem (store_double m.kernel.mem esp v) m.kernel }

  -- The word on top of the stack, and the machine without it.
  abbrev pub top : Machine Dev → ℕ
  top m = load_double m.kernel.mem m.esp

  unfoldable pub drop : ℕ → Machine Dev → Machine Dev
  drop n m = record m { esp = u32 (m.esp + n) }

  -- `push byte` extends the sign. An `iret` to code of the same privilege takes three words.
  unfoldable pub exec : Instruction → Machine Dev → Machine Dev
  exec cli m = record m { kernel = with_flags (bit_and m.kernel.eflags (not32 flag_if)) m.kernel }
  exec sti m = record m { kernel = with_flags (bit_or m.kernel.eflags flag_if) m.kernel }
  exec cld m = record m { kernel = with_flags (bit_and m.kernel.eflags (not32 flag_df)) m.kernel }
  exec (push_byte v) m = push (if ltb v 128 then v else v + 2 ^ 32 - 2 ^ 8) m
  exec push_eax m = push m.eax m
  exec push_esp m = push m.esp m
  exec pop_eax m = record (drop 4 m) { eax = top m }
  exec pop_ebx m = record (drop 4 m) { ebx = top m }
  exec pusha m =
      push m.edi
        (push m.esi (push m.ebp (push m.esp (push m.ebx (push m.edx (push m.ecx (push m.eax m)))))))
  exec popa m =
      let m₁ = drop 4 m in
      let m₂ = drop 4 m₁ in
      let m₃ = drop 4 (drop 4 m₂) in
      let m₄ = drop 4 m₃ in
      let m₅ = drop 4 m₄ in
      let m₆ = drop 4 m₅ in
      record (drop 4 m₆) {
        edi = top m;
        esi = top m₁;
        ebp = top m₂;
        ebx = top m₃;
        edx = top m₄;
        ecx = top m₅;
        eax = top m₆;
      }
  exec mov_ax_ds m = record m { eax = m.eax / 2 ^ 16 * 2 ^ 16 + m.ds }
  exec (mov_ax v) m = record m { eax = m.eax / 2 ^ 16 * 2 ^ 16 + u16 v }
  exec mov_ds_ax m = record m { ds = u16 m.eax }
  exec mov_es_ax m = record m { es = u16 m.eax }
  exec mov_fs_ax m = record m { fs = u16 m.eax }
  exec mov_gs_ax m = record m { gs = u16 m.eax }
  exec mov_ds_bx m = record m { ds = u16 m.ebx }
  exec mov_es_bx m = record m { es = u16 m.ebx }
  exec mov_fs_bx m = record m { fs = u16 m.ebx }
  exec mov_gs_bx m = record m { gs = u16 m.ebx }
  exec (add_esp n) m = drop n m
  exec iret m =
      let m₁ = drop 4 m in
      let m₂ = drop 4 m₁ in
      record (drop 4 m₂) { eip = top m; cs = u16 (top m₁); kernel = with_flags (top m₂) m.kernel }

  unfoldable pub run : List Instruction → Machine Dev → Machine Dev
  run [] m = m
  run (i ∷ rest) m = run rest (exec i m)
