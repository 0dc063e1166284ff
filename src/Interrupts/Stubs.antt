-- ===== src/Interrupts/Stubs.antt =====
-- BIOS/kernel/interrupt.asm: the entry stubs, and how the processor comes to them. Where the linker put
-- them is a parameter: `code` tells which stub begins at an address. A C function may leave anything
-- in eax, ecx and edx, which is the parameter `scratch`; its own frame, below the stack pointer, is not
-- in the memory. What isr_common_stub does after its call is not reached.
pub mod Entry
pub mod Call
pub mod Return
pub mod Deliver
pub mod Sample
mod Tests
use mal_os.Prelude.{
  ℕ, ◌+◌, ◌*◌, ◌/◌, ◌%◌, ◌^◌, bit_and, Bool, ◌==◌, ◌||◌, ◌&&◌, leb, if◌then◌else◌, u32, not32, ◌<<◌,
  Option, none, some, List, [], ◌∷◌,
}
use mal_os.Kernel.Ports.{Ports}
use mal_os.Kernel.State.{Kernel}
use mal_os.Kernel.Processor.{
  Machine, Instruction, cli, sti, cld, push_byte, push_eax, push_esp, pop_ebx, pusha, popa,
  mov_ax_ds, mov_ax, mov_ds_ax, mov_es_ax, mov_fs_ax, mov_gs_ax, mov_ds_bx, mov_es_bx, mov_fs_bx,
  mov_gs_bx, add_esp, iret, load_double, flag_if, with_flags, push, top, run,
}
use mal_os.Interrupts.Isr.{Registers, Outcome, halted, undefined, isr_handler, irq_handler}

-- The exceptions that ISR_ERRCODE is used for.
abbrev pub pushes_error : ℕ → Bool
pushes_error n = n == 8 || (leb 10 n && leb n 14) || n == 17 || n == 30

-- ISR_ERRCODE and ISR_NOERRCODE, up to their jumps.
abbrev pub isr_stub : ℕ → List Instruction
isr_stub n = if pushes_error n then cli ∷ push_byte n ∷ [] else cli ∷ push_byte 0 ∷ push_byte n ∷ []

-- IRQ, up to its jump.
abbrev pub irq_stub : ℕ → List Instruction
irq_stub n = cli ∷ push_byte 0 ∷ push_byte (n + 32) ∷ []

-- What isr_common_stub and irq_common_stub do before the call.
abbrev pub save_context : List Instruction
save_context =
    pusha
    ∷ mov_ax_ds
    ∷ push_eax
    ∷ mov_ax 0x10
    ∷ mov_ds_ax
    ∷ mov_es_ax
    ∷ mov_fs_ax
    ∷ mov_gs_ax
    ∷ push_esp
    ∷ cld
    ∷ []

-- What irq_common_stub does after it.
abbrev pub restore_context : List Instruction
restore_context =
    pop_ebx
    ∷ pop_ebx
    ∷ mov_ds_bx
    ∷ mov_es_bx
    ∷ mov_fs_bx
    ∷ mov_gs_bx
    ∷ popa
    ∷ add_esp 8
    ∷ sti
    ∷ iret
    ∷ []

-- What stands at an address.
pub data Stub : Type 0 where
  exception request : ℕ → Stub

-- How an interrupt ends: the interrupted code goes on, the processor stops in `isr_handler`, or the
-- behaviour is undefined.
pub data Ending (Dev : Type 0) : Type 0 where
  resumes : Machine Dev → Ending Dev
  stops : Kernel Dev → Ending Dev
  crashes : Ending Dev

-- Interrupt, trap, nested task, resume and virtual 8086 flag.
abbrev pub entry_flags : ℕ
entry_flags = flag_if + (1 << 8) + (1 << 14) + (1 << 16) + (1 << 17)

module _ {Dev : Type 0} where
  abbrev pub push_error : Option ℕ → Machine Dev → Machine Dev
  push_error none m = m
  push_error (some code) m = push code m

  -- An interrupt in code of level 0, with the error code that the processor has for it.
  unfoldable pub entered : ℕ → Option ℕ → Machine Dev → Machine Dev
  entered n error m =
      let gate = m.kernel.idt n in
      let m₁ = push_error error (push m.eip (push m.cs (push m.kernel.eflags m))) in
      record m₁ {
        eip = gate.base_hi * 2 ^ 16 + gate.base_lo;
        cs = gate.sel;
        kernel = with_flags (bit_and m.kernel.eflags (not32 entry_flags)) m₁.kernel;
      }

  -- `none` is a gate out of the table's bounds or not of that kind, for which it raises another
  -- exception.
  unfoldable pub enter : ℕ → Option ℕ → Machine Dev → Option (Machine Dev)
  enter n error m =
      let gate = m.kernel.idt n in
      if leb (n * 8 + 7) m.kernel.idtr.limit
        && (gate.flags / 2 ^ 7 == 1 && gate.flags % 2 ^ 5 == 0x0E)
      then some (entered n error m)
      else none

  -- The argument of the C functions, a pointer to `registers_t`.
  abbrev pub registers_at : Machine Dev → Registers
  registers_at m = record {
    int_no = load_double m.kernel.mem (top m + 36);
    err_code = load_double m.kernel.mem (top m + 40);
  }

-- `isr_handler` does not return.
abbrev pub ended : {Dev : Type 0} → Outcome Dev → Ending Dev
ended undefined = crashes
ended (halted k) = stops k

module _ {Dev : Type 0} (hw : Ports Dev) (scratch : Machine Dev → ℕ × ℕ × ℕ) where
  -- After the call of a C function that has left the kernel `k`.
  abbrev pub returned : Kernel Dev → Machine Dev → Machine Dev
  returned k m =
      let (eax, ecx, edx) = scratch m in
      record m { kernel = k; eax = u32 eax; ecx = u32 ecx; edx = u32 edx }

  -- The calls of the C functions, from the machine at the call.
  unfoldable pub call_isr_handler : Machine Dev → Ending Dev
  call_isr_handler m = ended (isr_handler hw (registers_at m) m.kernel)

  abbrev pub return_from_irq : Machine Dev → Option (Kernel Dev) → Ending Dev
  return_from_irq m none = crashes
  return_from_irq m (some k) = resumes (run restore_context (returned k m))

  unfoldable pub call_irq_handler : Machine Dev → Ending Dev
  call_irq_handler m = return_from_irq m (irq_handler hw (registers_at m) m.kernel)

  unfoldable pub run_stub : Stub → Machine Dev → Ending Dev
  run_stub (exception n) m = call_isr_handler (run save_context (run (isr_stub n) m))
  run_stub (request n) m = call_irq_handler (run save_context (run (irq_stub n) m))

  abbrev pub run_found : Option Stub → Machine Dev → Ending Dev
  run_found none m = crashes
  run_found (some stub) m = run_stub stub m

  abbrev pub run_code : (ℕ → Option Stub) → Option (Machine Dev) → Ending Dev
  run_code code none = crashes
  run_code code (some m) = run_found (code m.eip) m

  unfoldable pub interrupt : (ℕ → Option Stub) → ℕ → Option ℕ → Machine Dev → Ending Dev
  interrupt code n error m = run_code code (enter n error m)
