-- ===== src/Pci/Present.antt =====
-- The functions that a configuration space holds, and the line for each of them.
use mal_os.Prelude.{
  ℕ, zero, suc, ◌+◌, ◌/◌, ◌%◌, ◌^◌, ◌<◌, ◌==◌, ◌||◌, if◌then◌else◌, Bool, arith, List, [], ◌∷◌,
  ◌++◌, codes, bit, bit_and, bit_and-ones, bit_and-le, ◌>>◌, ◌≡◌, ◌∙◌, ap, sym, Option, none, some,
  map, u8,
}
use mathlib.Core.List.{append_assoc, append-nil}
use mal_os.Libc.Printf.Render.{render}
use mal_os.Libc.Printf.Bounded.{
  Renders, Renders-nil, Renders-text, Renders-decimal, Renders-hexadecimal,
}
use mal_os.Pci.{DeviceDescriptor, list_format, list_args}

-- The words of the configuration space of all functions.
abbrev pub Config : Type 0
Config = ℕ → ℕ → ℕ → ℕ → ℕ

-- What identifies a function.
abbrev pub descriptor : Config → ℕ → ℕ → ℕ → DeviceDescriptor
descriptor c bus slot func = record {
  interrupt = c bus slot func 15;
  bus = bus;
  slot = slot;
  function = func;
  vendor_id = c bus slot func 0 % 2 ^ 16;
  device_id = c bus slot func 0 / 2 ^ 16;
  class_id = c bus slot func 3 / 2 ^ 16 % 2 ^ 8;
  subclass_id = c bus slot func 2 / 2 ^ 16 % 2 ^ 8;
  interface_id = c bus slot func 2 / 2 ^ 8 % 2 ^ 8;
  revision = c bus slot func 2 % 2 ^ 8;
}

-- No function is there: the vendor reads as 0 or as all ones.
abbrev pub is_absent : Config → ℕ → ℕ → ℕ → Bool
is_absent c bus slot func =
    c bus slot func 0 % 2 ^ 16 == 0x0000 || c bus slot func 0 % 2 ^ 16 == 0xFFFF

-- The functions present among `left` from `func` on, among all of a slot, in the slots of a bus, and
-- on the buses.
abbrev pub functions_present : ℕ → Config → ℕ → ℕ → ℕ → List DeviceDescriptor
functions_present zero c bus slot func = []
functions_present (suc left) c bus slot func =
    (if is_absent c bus slot func then [] else descriptor c bus slot func ∷ [])
    ++ functions_present left c bus slot (func + 1)

abbrev pub slot_present : Config → ℕ → ℕ → List DeviceDescriptor
slot_present c bus slot =
    functions_present (if bit 23 (c bus slot 0 3) == 1 then 8 else 1) c bus slot 0

abbrev pub slots_present : ℕ → Config → ℕ → ℕ → List DeviceDescriptor
slots_present zero c bus slot = []
slots_present (suc left) c bus slot = slot_present c bus slot ++ slots_present left c bus (slot + 1)

abbrev pub buses_present : ℕ → Config → ℕ → List DeviceDescriptor
buses_present zero c bus = []
buses_present (suc left) c bus = slots_present 32 c bus 0 ++ buses_present left c (bus + 1)

-- The line for a device prints, in at most 200 characters.
pub line_lem :
    (c : Config) (bus slot func : ℕ)
    → c bus slot func 0 < 2 ^ 32
    → Renders list_format (list_args (descriptor c bus slot func)) 200
line_lem c bus slot func h =
    let dev = descriptor c bus slot func in
    let byte : (x : ℕ) → bit_and x 0xFF < 2 ^ 31 = λ x. omega (arith, bit_and-ones 8 x) in
    let line = Renders-text (codes "\tPCI BUS: ") _ _ _ (ground arith) (
      Renders-decimal _ _ _ _ (byte bus) (
        Renders-text (codes ", SLOT: ") _ _ _ (ground arith) (
          Renders-decimal _ _ _ _ (byte slot) (
            Renders-text (codes ", FUNCTION: ") _ _ _ (ground arith) (
              Renders-decimal _ _ _ _ (byte func) (
                Renders-text (codes " = VENDOR: ") _ _ _ (ground arith) (
                  Renders-hexadecimal (bit_and dev.vendor_id 0xFF00 >> 8) _ _ _
                    (omega (arith, bit_and-le 16 dev.vendor_id 0xFF00 (omega arith)))
                    (Renders-hexadecimal _ _ _ _ (omega (arith, byte dev.vendor_id)) (
                      Renders-text (codes " DEVICE: ") _ _ _ (ground arith) (
                        Renders-hexadecimal (bit_and dev.device_id 0xFF00 >> 8) _ _ _
                          (omega (arith, bit_and-le 16 dev.device_id 0xFF00 (omega arith)))
                          (Renders-hexadecimal _ _ _ _ (omega (arith, byte dev.device_id)) (
                            Renders-text (codes "\n") [] [] 0 (ground arith)
                              (Renders-nil []))))))))))))) in
    (line.0, line.1, omega (arith, line.2))

abbrev pub bytes_of : Option (List ℕ) → List ℕ
bytes_of none = []
bytes_of (some text) = map u8 text

-- What is printed for a device, and for several.
abbrev pub line : DeviceDescriptor → List ℕ
line dev = bytes_of (render list_format (list_args dev))

abbrev pub lines : List DeviceDescriptor → List ℕ
lines [] = []
lines (dev ∷ devices) = line dev ++ lines devices

pub lines-append :
    (devices : List DeviceDescriptor) (dev : DeviceDescriptor)
    → lines (devices ++ dev ∷ []) ≡ lines devices ++ line dev
lines-append [] dev = append-nil (line dev)
lines-append (d ∷ devices) dev =
    ap (λ t. line d ++ t) (lines-append devices dev)
    ∙ sym (append_assoc (line d) (lines devices) (line dev))
