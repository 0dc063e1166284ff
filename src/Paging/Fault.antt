-- ===== src/Paging/Fault.antt =====
-- `page_fault` of BIOS/kernel/paging/paging.c. The processor's `cr2` is an argument. A call of the
-- function as it is meant; through the table of handlers it is another one (Interrupts/Isr.antt).
pub mod Report
mod Tests
use mal_os.Prelude.{
  ℕ, bit_and, Bool, ◌==◌, if◌then◌else◌, Option, some, List, [], ◌∷◌, codes, truth, ◌>>=◌,
}
use mal_os.Kernel.Ports.{Ports}
use mal_os.Kernel.State.{Kernel}
use mal_os.Libc.Printf.{int, say}
use mal_os.Interrupts.Isr.{Registers}

module _ {Dev : Type 0} (hw : Ports Dev) where
  -- `if (flag) { printf(text); }`
  abbrev pub say_if : Bool → List ℕ → Kernel Dev → Option (Kernel Dev)
  say_if flag text k = if flag then say hw text [] k else some k

  unfoldable pub page_fault : ℕ → Registers → Kernel Dev → Option (Kernel Dev)
  page_fault cr2 regs k =
      let faulting_address = cr2 in
      let present = bit_and regs.err_code 0x1 == 0 in
      let rw_flag = truth (bit_and regs.err_code 0x2) in
      let us = truth (bit_and regs.err_code 0x4) in
      let reserved = truth (bit_and regs.err_code 0x8) in
      do
        k₁ ← say hw (codes "Page fault! ( ") [] k
        k₂ ← say_if present (codes "present ") k₁
        k₃ ← say_if rw_flag (codes "read-only ") k₂
        k₄ ← say_if us (codes "user-mode ") k₃
        k₅ ← say_if reserved (codes "reserved ") k₄
        say hw (codes ") at 0x%x\n") (int faulting_address ∷ []) k₅
