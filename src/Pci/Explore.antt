-- ===== src/Pci/Explore.antt =====
-- `pci_explore` finds the functions that are present.
pub mod Overrun
use mal_os.Prelude.{
  ℕ, zero, suc, ◌+◌, ◌*◌, ◌%◌, ◌^◌, ◌≤◌, ◌<◌, ◌≡◌, refl, ◌∙◌, ap, sym, subst, Bool-cases, inl, inr,
  ◌==◌, ltb, if◌then◌else◌, true, arith, some, List, [], ◌∷◌, ◌++◌, length, length-append, map, u8,
  bit, Option,
}
use mathlib.Core.List.{append_assoc, append-nil}
use mal_os.Kernel.Ports.{Ports}
use mal_os.Kernel.State.{Kernel}
use mal_os.Kernel.Tty.{terminal_putchar}
use mal_os.Kernel.Tty.Screen.{type_text}
use mal_os.Kernel.Tty.Cursor.{IsCrtc, cursor}
use mal_os.Kernel.Tty.Devices.{IsApart, terminal_putchar-apart}
use mal_os.Kernel.Tty.Text.{Writes-on_screen}
use mal_os.Libc.Printf.{printf}
use mal_os.Libc.Printf.Render.{put_all}
use mal_os.Libc.Printf.Prints.{printf-render}
use mal_os.Libc.Printf.Writes.{put_all-Writes}
use mal_os.Pci.{
  DeviceDescriptor, list_format, list_args, construct_identifier, read, get_device_descriptor,
  device_multifunction, explore_function, explore_functions, explore_slots, explore_buses,
  pci_explore,
}
use mal_os.Pci.Config.{IsHostBridge, device_multifunction-config, get_device_descriptor-config}
use mal_os.Pci.Machine.{IsMachine, IsAt, printf-IsAt, described, device_multifunction-IsAt}
use mal_os.Pci.Present.{
  Config, descriptor, is_absent, functions_present, slot_present, slots_present, buses_present,
  line_lem,
}

module _ {Dev : Type 0} {hw : Ports Dev} (machine : IsMachine hw) (base : Kernel Dev) where
  -- How a part of the search ends: with the devices found before and the ones it found, on a machine
  -- that is as it was.
  abbrev pub Found :
      Config → List DeviceDescriptor → Option (List DeviceDescriptor × Kernel Dev) → Type 0
  Found c devices out =
      (k' : Kernel Dev) × (out ≡ some (devices, k')) × IsAt machine base c devices k'

  -- The devices that one round adds.
  abbrev pub here : Config → ℕ → ℕ → ℕ → List DeviceDescriptor
  here c bus slot func = if is_absent c bus slot func then [] else descriptor c bus slot func ∷ []

  -- Nothing is found.
  still :
      (c : Config) (devices : List DeviceDescriptor) (k : Kernel Dev)
      → IsAt machine base c devices k
      → IsAt machine base c (devices ++ []) k
  still c devices k = subst (λ ds. IsAt machine base c ds k) (sym (append-nil devices))

  pub explore_function-Found :
      (c : Config) (bus slot func : ℕ) (devices : List DeviceDescriptor) (k : Kernel Dev)
      → bus < 256
      → slot < 32
      → func < 8
      → IsAt machine base c devices k
      → length (devices ++ here c bus slot func) ≤ 15
      → Found c (devices ++ here c bus slot func) (explore_function hw bus slot func devices k)
  unfolding explore_function
  explore_function-Found c bus slot func devices k hb hs hf at room =
      let (e, at₁) = described machine base c devices bus slot func k hb hs hf at in
      let k₁ : Kernel Dev = record k { dev = (get_device_descriptor hw bus slot func k.dev).1 } in
      let dev = descriptor c bus slot func in
      elim (Bool-cases (is_absent c bus slot func)) [
        | inl absent ↦
            rw (explore_function, e, absent)
              (k₁, ap (λ z. some (z, k₁)) (sym (append-nil devices)), still c devices k₁ at₁)
        | inr present ↦
            let (n, k₂, printed, at₂) = printf-IsAt machine base c devices bus slot func k₁ at₁ in
            let left : ltb (length devices) 15 ≡ true =
              ground (arith, length-append devices (dev ∷ [])) in
            rw (explore_function, e, present, left, printed)
              (k₂, ap (λ z. some (devices ++ z ∷ [], k₂)) e, at₂)
      ]

  room_before :
      (xs ys zs : List DeviceDescriptor) → length (xs ++ (ys ++ zs)) ≤ 15 → length (xs ++ ys) ≤ 15
  room_before xs ys zs h =
      omega (arith, length-append xs (ys ++ zs), length-append ys zs, length-append xs ys)

  Found-append :
      (c : Config) (xs ys zs : List DeviceDescriptor)
      → (out : Option (List DeviceDescriptor × Kernel Dev)) → Found c ((xs ++ ys) ++ zs) out
      → Found c (xs ++ (ys ++ zs)) out
  Found-append c xs ys zs out = subst (λ z. Found c z out) (append_assoc xs ys zs)

  room_after :
      (xs ys zs : List DeviceDescriptor)
      → length (xs ++ (ys ++ zs)) ≤ 15
      → length ((xs ++ ys) ++ zs) ≤ 15
  room_after xs ys zs = subst (λ z. length z ≤ 15) (sym (append_assoc xs ys zs))

  pub explore_functions-Found :
      (left : ℕ) (c : Config) (bus slot func : ℕ) (devices : List DeviceDescriptor) (k : Kernel Dev)
      → bus < 256
      → slot < 32
      → func + left ≤ 8
      → IsAt machine base c devices k
      → length (devices ++ functions_present left c bus slot func) ≤ 15
      → Found c
          (devices ++ functions_present left c bus slot func)
          (explore_functions hw left bus slot func devices k)
  unfolding explore_functions
  explore_functions-Found zero c bus slot func devices k hb hs hf at room =
      (k, ap (λ z. some (z, k)) (sym (append-nil devices)), still c devices k at)
  explore_functions-Found (suc left) c bus slot func devices k hb hs hf at room =
      let now = here c bus slot func in
      let later = functions_present left c bus slot (func + 1) in
      let (k₁, e, at₁) =
        explore_function-Found c bus slot func devices k hb hs (omega arith) at
          (room_before devices now later room) in
      let rest =
        explore_functions-Found left c bus slot (func + 1) (devices ++ now) k₁ hb hs (omega arith)
          at₁ (room_after devices now later room) in
      rw (explore_functions, e) (Found-append c devices now later _ rest)

  pub explore_slots-Found :
      (left : ℕ) (c : Config) (bus slot : ℕ) (devices : List DeviceDescriptor) (k : Kernel Dev)
      → bus < 256
      → slot + left ≤ 32
      → IsAt machine base c devices k
      → length (devices ++ slots_present left c bus slot) ≤ 15
      → Found c
          (devices ++ slots_present left c bus slot)
          (explore_slots hw left bus slot devices k)
  unfolding explore_slots
  explore_slots-Found zero c bus slot devices k hb hs at room =
      (k, ap (λ z. some (z, k)) (sym (append-nil devices)), still c devices k at)
  explore_slots-Found (suc left) c bus slot devices k hb hs at room =
      let now = slot_present c bus slot in
      let later = slots_present left c bus (slot + 1) in
      let (multi, at₁) =
        device_multifunction-IsAt machine base c devices bus slot k hb (omega arith) at in
      let k₁ : Kernel Dev = record k { dev = (device_multifunction hw bus slot k.dev).1 } in
      let count : ℕ = if bit 23 (c bus slot 0 3) == 1 then 8 else 1 in
      let (k₂, e, at₂) =
        explore_functions-Found count c bus slot 0 devices k₁ hb (omega arith) (ground arith) at₁
          (room_before devices now later room) in
      let rest =
        explore_slots-Found left c bus (slot + 1) (devices ++ now) k₂ hb (omega arith) at₂
          (room_after devices now later room) in
      rw (explore_slots, multi, e) (Found-append c devices now later _ rest)

  pub explore_buses-Found :
      (left : ℕ) (c : Config) (bus : ℕ) (devices : List DeviceDescriptor) (k : Kernel Dev)
      → bus + left ≤ 256
      → IsAt machine base c devices k
      → length (devices ++ buses_present left c bus) ≤ 15
      → Found c (devices ++ buses_present left c bus) (explore_buses hw left bus devices k)
  unfolding explore_buses
  explore_buses-Found zero c bus devices k hb at room =
      (k, ap (λ z. some (z, k)) (sym (append-nil devices)), still c devices k at)
  explore_buses-Found (suc left) c bus devices k hb at room =
      let now = slots_present 32 c bus 0 in
      let later = buses_present left c (bus + 1) in
      let (k₁, e, at₁) =
        explore_slots-Found 32 c bus 0 devices k (omega arith) (omega arith) at
          (room_before devices now later room) in
      let rest =
        explore_buses-Found left c (bus + 1) (devices ++ now) k₁ (omega arith) at₁
          (room_after devices now later room) in
      rw (explore_buses, e) (Found-append c devices now later _ rest)

module _ {Dev : Type 0} {hw : Ports Dev} (machine : IsMachine hw) where
  -- With the cursor on the screen and at most 15 functions on the buses 0 to 7, `pci_explore` returns:
  -- it has found exactly the functions whose vendor is neither 0 nor all ones, in the order of bus,
  -- slot and function, where a slot counts for eight functions if its header says so and for one if
  -- not; the configuration is as before, the cursor is on the screen, and nothing but the devices and
  -- the memory has changed. On the screen one line for each of them has been typed, in the same order
  -- and in the current colour, made from its bus, slot, function, vendor and device.
  pub pci_explore-Found :
      (k : Kernel Dev)
      → cursor machine.crtc k < 2000
      → length (buses_present 8 (machine.bridge.config k.dev) 0) ≤ 15
      → Found machine k
          (machine.bridge.config k.dev)
          (buses_present 8 (machine.bridge.config k.dev) 0)
          (pci_explore hw k)
  unfolding pci_explore
  pci_explore-Found k on room =
      explore_buses-Found machine k 8 (machine.bridge.config k.dev) 0 [] k (omega arith)
        (refl, on, refl, unfold type_text in refl) room
