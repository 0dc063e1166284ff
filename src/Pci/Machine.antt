-- ===== src/Pci/Machine.antt =====
-- The machine that `pci_explore` runs on, and that its steps keep.
use mal_os.Prelude.{
  ℕ, ◌+◌, ◌*◌, ◌%◌, ◌^◌, ◌<◌, ◌≡◌, refl, ◌∙◌, ap, subst, ◌==◌, arith, some, List, [], ◌∷◌, length,
  ◌++◌, ap₂, sym, map, u8, bit,
}
use mal_os.Kernel.Ports.{Ports}
use mal_os.Kernel.State.{Kernel}
use mal_os.Kernel.Tty.{terminal_putchar}
use mal_os.Kernel.Tty.Cursor.{IsCrtc, cursor}
use mal_os.Kernel.Tty.Devices.{IsApart, terminal_putchar-apart}
use mal_os.Kernel.Tty.Screen.{Screen, type_text, type_text-append, view, view-Writes, cells_of}
use mal_os.Kernel.Tty.Text.{Writes-on_screen, Writes-screen_only}
use mal_os.Libc.Printf.{printf}
use mal_os.Libc.Printf.Render.{render, put_all}
use mal_os.Libc.Printf.Prints.{printf-render}
use mal_os.Libc.Printf.Writes.{put_all-Writes}
use mal_os.Pci.{
  DeviceDescriptor, list_format, list_args, construct_identifier, read, get_device_descriptor,
  device_multifunction,
}
use mal_os.Pci.Config.{IsHostBridge, device_multifunction-config, get_device_descriptor-config}
use mal_os.Pci.Present.{Config, descriptor, line_lem, bytes_of, line, lines, lines-append}

-- A machine with a CRT controller and a host bridge that do not disturb each other.
pub record IsMachine {Dev : Type 0} (hw : Ports Dev) : Type 0 where
  pub crtc : IsCrtc hw
  pub bridge : IsHostBridge hw
  pub config_apart : IsApart hw bridge.config
  pub out_keeps :
      (d : Dev) (v : ℕ)
      → let d' = hw.out32 0xCF8 v d in (crtc.high d' ≡ crtc.high d) × (crtc.low d' ≡ crtc.low d)
  pub in_keeps :
      (d : Dev)
      → let d' = (hw.in32 0xCFC d).1 in (crtc.high d' ≡ crtc.high d) × (crtc.low d' ≡ crtc.low d)

module _ {Dev : Type 0} {hw : Ports Dev} (machine : IsMachine hw) (base : Kernel Dev) where
  abbrev at_cell : Dev → ℕ
  at_cell d = machine.crtc.high d * 256 + machine.crtc.low d

  -- The cursor is on the screen, the configuration space is `c`, all but the devices and the memory
  -- is as in `base`, and on its screen the lines for the found devices have been typed.
  abbrev pub IsAt : Config → List DeviceDescriptor → Kernel Dev → Type 0
  IsAt c found k =
      (machine.bridge.config k.dev ≡ c)
      × (cursor machine.crtc k < 2000)
      × (k ≡ record base { dev = k.dev; mem = k.mem })
      × (view machine.crtc k ≡ type_text base.t_color (lines found) (view machine.crtc base))

  read-at_cell :
      (bus slot func offset : ℕ) (d : Dev) → at_cell (read hw bus slot func offset d).1 ≡ at_cell d
  unfolding read
  read-at_cell bus slot func offset d =
      let id = construct_identifier bus slot func offset % 2 ^ 32 in
      omega (arith, machine.out_keeps d id, machine.in_keeps (hw.out32 0xCF8 id d))

  get_device_descriptor-at_cell :
      (bus slot func : ℕ) (d : Dev)
      → at_cell (get_device_descriptor hw bus slot func d).1 ≡ at_cell d
  unfolding get_device_descriptor
  get_device_descriptor-at_cell bus slot func d =
      read-at_cell bus slot func 0x3C _
      ∙ read-at_cell bus slot func 0x08 _
      ∙ read-at_cell bus slot func 0x09 _
      ∙ read-at_cell bus slot func 0x0A _
      ∙ read-at_cell bus slot func 0x0E _
      ∙ read-at_cell bus slot func 0x02 _
      ∙ read-at_cell bus slot func 0x00 d

  -- The screen does not depend on the devices but for the cursor.
  view-moved :
      (d : Dev) (k : Kernel Dev)
      → at_cell d ≡ at_cell k.dev
      → view machine.crtc (record k { dev = d }) ≡ view machine.crtc k
  view-moved d k e = ap (λ n. at_screen n) e
    where
      at_screen : ℕ → Screen
      at_screen n = record { cells = cells_of k k.mem; at = n }

  -- The line for one device more.
  typed_line :
      (found : List DeviceDescriptor) (dev : DeviceDescriptor) (text : List ℕ)
      → render list_format (list_args dev) ≡ some text
      → type_text base.t_color
          (map u8 text)
          (type_text base.t_color (lines found) (view machine.crtc base))
        ≡ type_text base.t_color (lines (found ++ dev ∷ [])) (view machine.crtc base)
  typed_line found dev text e =
      let its_line : line dev ≡ map u8 text = ap bytes_of e in
      let joined = lines-append found dev ∙ ap (λ t. lines found ++ t) its_line in
      sym (type_text-append base.t_color (lines found) (map u8 text) (view machine.crtc base))
      ∙ ap (λ t. type_text base.t_color t (view machine.crtc base)) (sym joined)

  put_all-config :
      (text : List ℕ) (k : Kernel Dev)
      → machine.bridge.config (put_all hw text k).dev ≡ machine.bridge.config k.dev
  unfolding put_all
  put_all-config [] k = refl
  put_all-config (c ∷ text) k =
      put_all-config text (terminal_putchar hw (u8 c) k)
      ∙ terminal_putchar-apart machine.config_apart (u8 c) k

  -- The line for a device is printed.
  pub printf-IsAt :
      (c : Config) (found : List DeviceDescriptor) (bus slot func : ℕ) (k : Kernel Dev)
      → IsAt c found k
      → (n : ℕ) × (k' : Kernel Dev) × (printf hw list_format
            (list_args (descriptor c bus slot func))
            k
          ≡ some (n, k'))
        × IsAt c (found ++ descriptor c bus slot func ∷ []) k'
  printf-IsAt c found bus slot func k (same, on, rest, shown) =
      let small =
        subst (λ c. c bus slot func 0 < 2 ^ 32) same
          (machine.bridge.config_lt k.dev bus slot func 0) in
      let (text, e, short) = line_lem c bus slot func small in
      let k' = put_all hw text k in
      let writes = put_all-Writes machine.crtc text k on in
      (
        length text,
        k',
        printf-render hw list_format (list_args (descriptor c bus slot func)) k text e
            (omega arith),
        (
          put_all-config text k ∙ same,
          Writes-on_screen machine.crtc (map u8 text) k k' on writes,
          Writes-screen_only machine.crtc (map u8 text) k k' writes
              ∙ ap (λ (z : Kernel Dev). record z { dev = k'.dev; mem = k'.mem }) rest,
          view-Writes machine.crtc (map u8 text) k k' on writes
              ∙ ap₂ (λ color z. type_text color (map u8 text) z) (ap (λ z. z.t_color) rest) shown
              ∙ typed_line found (descriptor c bus slot func) text e,
        ),
      )

  pub described :
      (c : Config) (found : List DeviceDescriptor) (bus slot func : ℕ) (k : Kernel Dev)
      → bus < 256
      → slot < 32
      → func < 8
      → IsAt c found k
      → let (dev, d) = get_device_descriptor hw bus slot func k.dev in
        (dev ≡ descriptor c bus slot func) × IsAt c found (record k { dev = d })
  described c found bus slot func k hb hs hf (same, on, rest, shown) =
      let got = get_device_descriptor-config machine.bridge bus slot func k.dev hb hs hf in
      (
        got.0 ∙ ap (λ c. descriptor c bus slot func) same,
        (
          got.1 ∙ same,
          omega (arith, get_device_descriptor-at_cell bus slot func k.dev),
          ap
              (λ (z : Kernel Dev). record z {
                dev = (get_device_descriptor hw bus slot func k.dev).1;
              })
              rest,
          view-moved (get_device_descriptor hw bus slot func k.dev).1 k
                (get_device_descriptor-at_cell bus slot func k.dev)
              ∙ shown,
        ),
      )

  pub device_multifunction-IsAt :
      (c : Config) (found : List DeviceDescriptor) (bus slot : ℕ) (k : Kernel Dev)
      → bus < 256
      → slot < 32
      → IsAt c found k
      → let (multi, d) = device_multifunction hw bus slot k.dev in
        (multi ≡ (bit 23 (c bus slot 0 3) == 1)) × IsAt c found (record k { dev = d })
  device_multifunction-IsAt c found bus slot k hb hs (same, on, rest, shown) =
      let got = device_multifunction-config machine.bridge bus slot k.dev hb hs in
      (
        got.0 ∙ ap (λ c. bit 23 (c bus slot 0 3) == 1) same,
        (
          got.1 ∙ same,
          unfold device_multifunction in omega (arith, read-at_cell bus slot 0 0x0E k.dev),
          ap (λ (z : Kernel Dev). record z { dev = (device_multifunction hw bus slot k.dev).1 })
              rest,
          view-moved (device_multifunction hw bus slot k.dev).1 k
                (unfold device_multifunction in read-at_cell bus slot 0 0x0E k.dev)
              ∙ shown,
        ),
      )
