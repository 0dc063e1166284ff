-- ===== src/Pci/Explore/Overrun.antt =====
-- `pci_explore` with more functions than its array holds.
use mal_os.Prelude.{
  ℕ, zero, suc, ◌+◌, ◌≤◌, ◌<◌, ◌≡◌, refl, sym, Bool-cases, inl, inr, ◌==◌, ltb, if◌then◌else◌,
  false, arith, none, List, [], ◌∷◌, ◌++◌, length, length-append, bit, subst,
}
use mathlib.Core.List.{append_assoc}
use native.Mathlib.Decide.{dec_le}
use mal_os.Kernel.Ports.{Ports}
use mal_os.Kernel.State.{Kernel}
use mal_os.Kernel.Tty.Screen.{type_text}
use mal_os.Kernel.Tty.Cursor.{cursor}
use mal_os.Pci.{
  DeviceDescriptor, device_multifunction, explore_function, explore_functions, explore_slots,
  explore_buses, pci_explore,
}
use mal_os.Pci.Present.{
  Config, descriptor, is_absent, functions_present, slot_present, slots_present, buses_present,
}
use mal_os.Pci.Machine.{IsMachine, IsAt, described, device_multifunction-IsAt}
use mal_os.Pci.Explore.{here, explore_function-Found, explore_functions-Found, explore_slots-Found}

module _ {Dev : Type 0} {hw : Ports Dev} (machine : IsMachine hw) (base : Kernel Dev) where
  longer :
      (xs ys zs : List DeviceDescriptor)
      → 15 < length (xs ++ (ys ++ zs))
      → 15 < length ((xs ++ ys) ++ zs)
  longer xs ys zs = subst (λ z. 15 < length z) (sym (append_assoc xs ys zs))

  explore_function-overrun :
      (c : Config) (bus slot func : ℕ) (devices : List DeviceDescriptor) (k : Kernel Dev)
      → bus < 256
      → slot < 32
      → func < 8
      → IsAt machine base c devices k
      → length devices ≤ 15
      → 15 < length (devices ++ here machine base c bus slot func)
      → explore_function hw bus slot func devices k ≡ none
  unfolding explore_function
  explore_function-overrun c bus slot func devices k hb hs hf at fits over =
      let (e, at₁) = described machine base c devices bus slot func k hb hs hf at in
      elim (Bool-cases (is_absent c bus slot func)) [
        | inl absent ↦ absurd (ground (arith, length-append devices []))
        | inr present ↦
            let full : ltb (length devices) 15 ≡ false =
              ground (arith, length-append devices (descriptor c bus slot func ∷ [])) in
            rw (explore_function, e, present, full) refl
      ]

  explore_functions-overrun :
      (left : ℕ) (c : Config) (bus slot func : ℕ) (devices : List DeviceDescriptor) (k : Kernel Dev)
      → bus < 256
      → slot < 32
      → func + left ≤ 8
      → IsAt machine base c devices k
      → length devices ≤ 15
      → 15 < length (devices ++ functions_present left c bus slot func)
      → explore_functions hw left bus slot func devices k ≡ none
  unfolding explore_functions
  explore_functions-overrun zero c bus slot func devices k hb hs hf at fits over =
      absurd (omega (arith, length-append devices []))
  explore_functions-overrun (suc left) c bus slot func devices k hb hs hf at fits over =
      let now = here machine base c bus slot func in
      let later = functions_present left c bus slot (func + 1) in
      elim (dec_le (length (devices ++ now)) 15) [
        | yes room ↦
            let (k₁, e, at₁) =
              explore_function-Found machine base c bus slot func devices k hb hs (omega arith) at
                room in
            rw (explore_functions, e)
              (explore_functions-overrun left c bus slot (func + 1) (devices ++ now) k₁ hb hs
                (omega arith) at₁ room (longer devices now later over))
        | no full ↦
            rw
              (
                explore_functions,
                explore_function-overrun c bus slot func devices k hb hs (omega arith) at fits
                    (omega arith),
              )
              refl
      ]

  explore_slots-overrun :
      (left : ℕ) (c : Config) (bus slot : ℕ) (devices : List DeviceDescriptor) (k : Kernel Dev)
      → bus < 256
      → slot + left ≤ 32
      → IsAt machine base c devices k
      → length devices ≤ 15
      → 15 < length (devices ++ slots_present left c bus slot)
      → explore_slots hw left bus slot devices k ≡ none
  unfolding explore_slots
  explore_slots-overrun zero c bus slot devices k hb hs at fits over =
      absurd (omega (arith, length-append devices []))
  explore_slots-overrun (suc left) c bus slot devices k hb hs at fits over =
      let now = slot_present c bus slot in
      let later = slots_present left c bus (slot + 1) in
      let (multi, at₁) =
        device_multifunction-IsAt machine base c devices bus slot k hb (omega arith) at in
      let k₁ : Kernel Dev = record k { dev = (device_multifunction hw bus slot k.dev).1 } in
      let count : ℕ = if bit 23 (c bus slot 0 3) == 1 then 8 else 1 in
      let most : 0 + count ≤ 8 = ground arith in
      elim (dec_le (length (devices ++ now)) 15) [
        | yes room ↦
            let (k₂, e, at₂) =
              explore_functions-Found machine base count c bus slot 0 devices k₁ hb (omega arith)
                most at₁ room in
            rw (explore_slots, multi, e)
              (explore_slots-overrun left c bus (slot + 1) (devices ++ now) k₂ hb (omega arith) at₂
                room (longer devices now later over))
        | no full ↦
            rw
              (
                explore_slots,
                multi,
                explore_functions-overrun count c bus slot 0 devices k₁ hb (omega arith) most at₁
                    fits (omega arith),
              )
              refl
      ]

  explore_buses-overrun :
      (left : ℕ) (c : Config) (bus : ℕ) (devices : List DeviceDescriptor) (k : Kernel Dev)
      → bus + left ≤ 256
      → IsAt machine base c devices k
      → length devices ≤ 15
      → 15 < length (devices ++ buses_present left c bus)
      → explore_buses hw left bus devices k ≡ none
  unfolding explore_buses
  explore_buses-overrun zero c bus devices k hb at fits over =
      absurd (omega (arith, length-append devices []))
  explore_buses-overrun (suc left) c bus devices k hb at fits over =
      let now = slots_present 32 c bus 0 in
      let later = buses_present left c (bus + 1) in
      elim (dec_le (length (devices ++ now)) 15) [
        | yes room ↦
            let (k₁, e, at₁) =
              explore_slots-Found machine base 32 c bus 0 devices k (omega arith) (omega arith) at
                room in
            rw (explore_buses, e)
              (explore_buses-overrun left c (bus + 1) (devices ++ now) k₁ (omega arith) at₁ room
                (longer devices now later over))
        | no full ↦
            rw
              (
                explore_buses,
                explore_slots-overrun 32 c bus 0 devices k (omega arith) (omega arith) at fits
                    (omega arith),
              )
              refl
      ]

module _ {Dev : Type 0} {hw : Ports Dev} (machine : IsMachine hw) where
  -- With the cursor on the screen and more than 15 functions on the buses 0 to 7, `pci_explore`
  -- writes behind its array.
  pub pci_explore_overruns :
      (k : Kernel Dev)
      → cursor machine.crtc k < 2000
      → 15 < length (buses_present 8 (machine.bridge.config k.dev) 0)
      → pci_explore hw k ≡ none
  unfolding pci_explore
  pci_explore_overruns k on over =
      explore_buses-overrun machine k 8 (machine.bridge.config k.dev) 0 [] k (omega arith)
        (refl, on, refl, unfold type_text in refl) (omega arith) over
