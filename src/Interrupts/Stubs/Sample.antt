-- ===== src/Interrupts/Stubs/Sample.antt =====
-- Places for the stubs, for the tests.
use mal_os.Prelude.{
  ℕ, ◌+◌, ◌/◌, ◌%◌, ◌^◌, ◌<◌, ◌≡◌, ap, ◌==◌, if◌then◌else◌, Option, none, some, true, false, arith,
}
use mal_os.Interrupts.Stubs.{Stub, exception, request}
use mal_os.Interrupts.Stubs.Deliver.{IsLinked}

abbrev pub stub : ℕ → ℕ → ℕ
stub base n = base + n % 256

pub stub-lt : (base n : ℕ) → base < 0x10000 → stub base n < 2 ^ 32
stub-lt base n h = omega arith

abbrev pub code_at : ℕ → Option Stub
code_at a =
    if a / 256 == 0x10
    then some (exception (a % 256))
    else if a / 256 == 0x20
    then some (request (a % 256))
    else none

exceptions_at : (n : ℕ) → n < 32 → code_at (stub 0x1000 n) ≡ some (exception n)
exceptions_at n h =
    let page : (stub 0x1000 n / 256 == 0x10) ≡ true = ground arith in
    rw page (ap (λ i. some (exception i)) {x = stub 0x1000 n % 256} (omega arith))

requests_at : (n : ℕ) → n < 16 → code_at (stub 0x2000 n) ≡ some (request n)
requests_at n h =
    let page : (stub 0x2000 n / 256 == 0x10) ≡ false = ground arith in
    let other : (stub 0x2000 n / 256 == 0x20) ≡ true = ground arith in
    rw (page, other) (ap (λ i. some (request i)) {x = stub 0x2000 n % 256} (omega arith))

pub linked : IsLinked (stub 0x1000) (stub 0x2000) code_at
linked = record { exceptions = exceptions_at; requests = requests_at }
