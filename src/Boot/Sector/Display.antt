-- ===== src/Boot/Sector/Display.antt =====
-- The digits of `printh`.
use mal_os.Prelude.{
  ℕ, ◌+◌, ◌-◌, ◌*◌, ◌/◌, ◌%◌, ◌^◌, ◌<◌, ◌≡◌, refl, ap, leb, if◌then◌else◌, List, [], ◌∷◌, arith,
}
use mal_os.Boot.Sector.{ror, hex_ascii, hex2ascii}

-- The digits of a word, and the string that `printh` prints.
abbrev pub hex_text : ℕ → List ℕ
hex_text w =
    b'0'
    ∷ b'x'
    ∷ hex_ascii (w / 2 ^ 12)
    ∷ hex_ascii (w / 2 ^ 8 % 2 ^ 4)
    ∷ hex_ascii (w / 2 ^ 4 % 2 ^ 4)
    ∷ hex_ascii (w % 2 ^ 4)
    ∷ []

-- The value of an upper case digit, and of the four behind "0x".
abbrev pub digit_value : ℕ → ℕ
digit_value c = if leb c b'9' then c - b'0' else c - b'A' + 10

abbrev pub read_hex : List ℕ → ℕ
read_hex (_ ∷ _ ∷ a ∷ b ∷ c ∷ d ∷ []) =
    digit_value a * 2 ^ 12 + digit_value b * 2 ^ 8 + digit_value c * 2 ^ 4 + digit_value d
read_hex _ = 0

-- HEX_STREAM with any digits.
abbrev pub IsStream : List ℕ → Type 0
IsStream s = (a : ℕ) × (b : ℕ) × (c : ℕ) × (d : ℕ) × (s ≡ b'0' ∷ b'x' ∷ a ∷ b ∷ c ∷ d ∷ [])

digit_value-hex_ascii : (n : ℕ) → n < 16 → digit_value (hex_ascii n) ≡ n
digit_value-hex_ascii n h = ground arith

pub read_hex-hex_text : (w : ℕ) → w < 2 ^ 16 → read_hex (hex_text w) ≡ w
read_hex-hex_text w h = omega (
  arith,
  digit_value-hex_ascii (w / 2 ^ 12) (omega arith),
  digit_value-hex_ascii (w / 2 ^ 8 % 2 ^ 4) (omega arith),
  digit_value-hex_ascii (w / 2 ^ 4 % 2 ^ 4) (omega arith),
  digit_value-hex_ascii (w % 2 ^ 4) (omega arith),
)

text_equal :
    {a a' b b' c c' : ℕ} {d : ℕ}
    → a ≡ a'
    → b ≡ b'
    → c ≡ c'
    → (b'0' ∷ b'x' ∷ a ∷ b ∷ c ∷ d ∷ []) ≡ (b'0' ∷ b'x' ∷ a' ∷ b' ∷ c' ∷ d ∷ [])
text_equal e f g = rw (e, f, g) refl

pub hex2ascii_lem : (w : ℕ) (s : List ℕ) → w < 2 ^ 16 → IsStream s → hex2ascii 4 0 w s ≡ hex_text w
unfolding hex2ascii
hex2ascii_lem w s h (a, b, c, d, e) =
    let second : ror w 4 % 2 ^ 4 ≡ w / 2 ^ 4 % 2 ^ 4 = omega arith in
    let third : ror (ror w 4) 4 % 2 ^ 4 ≡ w / 2 ^ 8 % 2 ^ 4 = omega arith in
    let fourth : ror (ror (ror w 4) 4) 4 % 2 ^ 4 ≡ w / 2 ^ 12 = omega arith in
    rw e (text_equal (ap hex_ascii fourth) (ap hex_ascii third) (ap hex_ascii second))
