-- ===== src/Pci.antt =====
-- BIOS/kernel/pci.c: the configuration space of the PCI bus, and the search for devices.
pub mod Identifier
pub mod Config
pub mod Present
pub mod Machine
pub mod Explore
pub mod Sample
pub mod Store
mod Tests
use mal_os.Prelude.{
  ℕ, zero, suc, ◌+◌, ◌*◌, ◌%◌, ◌^◌, bit_and, bit_or, Bool, ◌==◌, ◌||◌, ltb, if◌then◌else◌, Option,
  none, some, List, [], ◌∷◌, ◌++◌, length, codes, u8, u16, u32, truth, ◌<<◌, ◌>>◌,
}
use mal_os.Kernel.Ports.{Ports, ports_inl, ports_outl}
use mal_os.Kernel.State.{Kernel}
use mal_os.Libc.Printf.{Arg, int, printf}

abbrev pub data_port : ℕ
data_port = 0xCFC

abbrev pub command_port : ℕ
command_port = 0xCF8

unfoldable pub construct_identifier : ℕ → ℕ → ℕ → ℕ → ℕ
construct_identifier bus slot func offset =
    let lbus = u32 (u8 bus) in
    let lslot = u32 (u8 slot) in
    let lfunc = u32 (u8 func) in
    u32 (
      bit_or
        (bit_or (bit_or (bit_or (0x01 << 31) (u32 (lbus << 16))) (u32 (lslot << 11)))
          (u32 (lfunc << 8)))
        (bit_and (u8 offset) 0xFC))

-- `device_descriptor_t`, less `portBase`, which nothing writes or reads.
pub record DeviceDescriptor : Type 0 where
  pub interrupt : ℕ
  pub bus : ℕ
  pub slot : ℕ
  pub function : ℕ
  pub vendor_id : ℕ
  pub device_id : ℕ
  pub class_id : ℕ
  pub subclass_id : ℕ
  pub interface_id : ℕ
  pub revision : ℕ

abbrev pub list_format : List ℕ
list_format = codes "\tPCI BUS: %d, SLOT: %d, FUNCTION: %d = VENDOR: %x%x DEVICE: %x%x\n"

abbrev pub list_args : DeviceDescriptor → List Arg
list_args dev =
    int (bit_and dev.bus 0xFF)
    ∷ int (bit_and dev.slot 0xFF)
    ∷ int (bit_and dev.function 0xFF)
    ∷ int (bit_and dev.vendor_id 0xFF00 >> 8)
    ∷ int (bit_and dev.vendor_id 0x00FF)
    ∷ int (bit_and dev.device_id 0xFF00 >> 8)
    ∷ int (bit_and dev.device_id 0x00FF)
    ∷ []

module _ {Dev : Type 0} (hw : Ports Dev) where
  unfoldable pub read : ℕ → ℕ → ℕ → ℕ → Dev → ℕ × Dev
  read bus slot function reg_offset d =
      let id = construct_identifier bus slot function reg_offset in
      let d₁ = ports_outl hw command_port id d in
      let (result, d₂) = ports_inl hw data_port d₁ in (result >> (8 * (u8 reg_offset % 4)), d₂)

  unfoldable pub write : ℕ → ℕ → ℕ → ℕ → ℕ → Dev → Dev
  write bus slot function reg_offset value d =
      let id = construct_identifier bus slot function reg_offset in
      ports_outl hw data_port value (ports_outl hw command_port id d)

  unfoldable pub device_multifunction : ℕ → ℕ → Dev → Bool × Dev
  device_multifunction bus slot d =
      let (header, d₁) = read bus slot 0 0x0E d in (truth (bit_and header (1 << 7)), d₁)

  unfoldable pub get_device_descriptor : ℕ → ℕ → ℕ → Dev → DeviceDescriptor × Dev
  get_device_descriptor bus slot function d =
      let (vendor, d₁) = read bus slot function 0x00 d in
      let (device, d₂) = read bus slot function 0x02 d₁ in
      let (class, d₃) = read bus slot function 0x0E d₂ in
      let (subclass, d₄) = read bus slot function 0x0A d₃ in
      let (interface, d₅) = read bus slot function 0x09 d₄ in
      let (revision, d₆) = read bus slot function 0x08 d₅ in
      let (interrupt, d₇) = read bus slot function 0x3C d₆ in
      (
        record {
          interrupt = interrupt;
          bus = bus;
          slot = slot;
          function = function;
          vendor_id = u16 vendor;
          device_id = u16 device;
          class_id = u8 class;
          subclass_id = u8 subclass;
          interface_id = u8 interface;
          revision = u8 revision;
        },
        d₇,
      )

  -- One round of the innermost loop of `pci_explore`, with the devices found so far: `none` is a
  -- write behind the array of 15, or a `printf` that is undefined.
  unfoldable pub explore_function :
      ℕ → ℕ → ℕ → List DeviceDescriptor → Kernel Dev → Option (List DeviceDescriptor × Kernel Dev)
  explore_function bus slot function devices k =
      let (dev, d) = get_device_descriptor bus slot function k.dev in
      let k₁ : Kernel Dev = record k { dev = d } in
      if dev.vendor_id == 0x0000 || dev.vendor_id == 0xFFFF
      then some (devices, k₁)
      else if ltb (length devices) 15
      then elim (printf hw list_format (list_args dev) k₁) [
        | none ↦ none
        | some (n, k₂) ↦ some (devices ++ dev ∷ [], k₂)
      ]
      else none

  -- The loops over `function`, `slot` and `bus`, each with the rounds that are left.
  unfoldable pub explore_functions :
      ℕ
      → ℕ
      → ℕ
      → ℕ
      → List DeviceDescriptor
      → Kernel Dev
      → Option (List DeviceDescriptor × Kernel Dev)
  explore_functions zero bus slot function devices k = some (devices, k)
  explore_functions (suc left) bus slot function devices k =
      elim (explore_function bus slot function devices k) [
        | none ↦ none
        | some (devices', k') ↦ explore_functions left bus slot (function + 1) devices' k'
      ]

  unfoldable pub explore_slots :
      ℕ → ℕ → ℕ → List DeviceDescriptor → Kernel Dev → Option (List DeviceDescriptor × Kernel Dev)
  explore_slots zero bus slot devices k = some (devices, k)
  explore_slots (suc left) bus slot devices k =
      let (multi, d) = device_multifunction bus slot k.dev in
      elim (explore_functions (if multi then 8 else 1) bus slot 0 devices (record k { dev = d })) [
        | none ↦ none
        | some (devices', k') ↦ explore_slots left bus (slot + 1) devices' k'
      ]

  unfoldable pub explore_buses :
      ℕ → ℕ → List DeviceDescriptor → Kernel Dev → Option (List DeviceDescriptor × Kernel Dev)
  explore_buses zero bus devices k = some (devices, k)
  explore_buses (suc left) bus devices k = elim (explore_slots 32 bus 0 devices k) [
    | none ↦ none
    | some (devices', k') ↦ explore_buses left (bus + 1) devices' k'
  ]

  -- The array that `pci_explore` fills is its own and dropped at the end; it is a result here.
  unfoldable pub pci_explore : Kernel Dev → Option (List DeviceDescriptor × Kernel Dev)
  pci_explore k = explore_buses 8 0 [] k
