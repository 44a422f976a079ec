-- ===== src/Libc/Decimal.antt =====
-- Reading back the decimal digits of a number.
use native.Mathlib.Nat.{pow-suc}
use displayxr_mcp.Prelude.{
  ℕ, zero, suc, ◌+◌, ◌-◌, ◌*◌, ◌/◌, ◌%◌, ◌^◌, ◌<◌, ◌≡◌, ◌≢◌, refl, ap, ◌∙◌, true, false, some, [],
  ◌∷◌, ◌++◌, Bytes, arith, length, length-append, ◌≤◌,
}
use displayxr_mcp.Libc.{
  is_digit, scan_digits, skip_spaces, unsigned_numeral, signed_numeral, numeral, strtoul,
  decimal_fuel, decimal,
}

-- Every byte is a digit.
abbrev pub Digits : Bytes → Type 0
Digits [] = Unit {0}
Digits (c ∷ cs) = (is_digit c ≡ true) × Digits cs

-- The number that the digits make, read onto `acc`.
abbrev value : ℕ → Bytes → ℕ
value acc [] = acc
value acc (c ∷ cs) = value (acc * 10 + (c - b'0')) cs

value-append : (acc : ℕ) (xs ys : Bytes) → value acc (xs ++ ys) ≡ value (value acc xs) ys
value-append acc [] ys = refl
value-append acc (x ∷ xs) ys = value-append (acc * 10 + (x - b'0')) xs ys

Digits-append : (xs ys : Bytes) → Digits xs → Digits ys → Digits (xs ++ ys)
Digits-append [] ys hx hy = hy
Digits-append (x ∷ xs) ys hx hy = (hx.0, Digits-append xs ys hx.1 hy)

-- The text after a number, where the number must end.
abbrev pub Stops : Bytes → Type 0
Stops [] = Unit {0}
Stops (c ∷ cs) = is_digit c ≡ false

scan_digits-stop : (acc : ℕ) (rest : Bytes) → Stops rest → scan_digits acc rest ≡ (acc, rest)
unfolding scan_digits
scan_digits-stop acc [] h = refl
scan_digits-stop acc (c ∷ cs) h = rw h

scan_digits-append :
    (acc : ℕ) (xs rest : Bytes)
    → Digits xs
    → Stops rest
    → scan_digits acc (xs ++ rest) ≡ (value acc xs, rest)
unfolding scan_digits
scan_digits-append acc [] rest d h = scan_digits-stop acc rest h
scan_digits-append acc (x ∷ xs) rest d h =
    rw d.0 (scan_digits-append (acc * 10 + (x - b'0')) xs rest d.1 h)

decimal_fuel-Digits : (f n : ℕ) → Digits (decimal_fuel f n)
unfolding decimal_fuel
decimal_fuel-Digits zero n = tt
decimal_fuel-Digits (suc f) n = ground (
  arith,
  Digits-append (decimal_fuel f (n / 10)) ((n % 10 + b'0') ∷ []) (decimal_fuel-Digits f (n / 10)),
)

decimal_fuel-value : (f n : ℕ) → n < f → value 0 (decimal_fuel f n) ≡ n
unfolding decimal_fuel
decimal_fuel-value zero n h = absurd (omega arith)
decimal_fuel-value (suc f) n h = ground (
  arith,
  decimal_fuel-value f (n / 10),
  value-append 0 (decimal_fuel f (n / 10)) ((n % 10 + b'0') ∷ []),
)

pub decimal-Digits : (n : ℕ) → Digits (decimal n)
unfolding decimal
decimal-Digits n = decimal_fuel-Digits (suc n) n

-- Scanning the digits of a number gives the number.
pub scan_digits-decimal :
    (n : ℕ) (rest : Bytes) → Stops rest → scan_digits 0 (decimal n ++ rest) ≡ (n, rest)
unfolding decimal
scan_digits-decimal n rest h =
    scan_digits-append 0 (decimal n) rest (decimal_fuel-Digits (suc n) n) h
    ∙ ap (λ k. (k, rest)) (decimal_fuel-value (suc n) n (omega arith))

snoc-ne-nil : (xs : Bytes) (y : ℕ) → xs ++ (y ∷ []) ≢ []
snoc-ne-nil [] y h = cc
snoc-ne-nil (x ∷ xs) y h = cc

decimal_fuel-ne-nil : (f n : ℕ) → decimal_fuel (suc f) n ≢ []
unfolding decimal_fuel
decimal_fuel-ne-nil f n h = ground (arith, snoc-ne-nil (decimal_fuel f (n / 10)) (n % 10 + b'0'))

pub decimal-ne-nil : (n : ℕ) → decimal n ≢ []
unfolding decimal
decimal-ne-nil n = decimal_fuel-ne-nil n n

-- Digits are neither blank nor sign.
numeral-Digits :
    (ds rest : Bytes)
    → Digits ds
    → ds ≢ []
    → numeral (ds ++ rest)
      ≡ some (record {
        negative = false;
        magnitude = (scan_digits 0 (ds ++ rest)).0;
        rest = (scan_digits 0 (ds ++ rest)).1;
      })
unfolding numeral skip_spaces signed_numeral unsigned_numeral
numeral-Digits [] rest d h = absurd (h refl)
numeral-Digits (c ∷ cs) rest d h = ground arith

-- The conversions read a printed number back, up to the first byte that is no digit.
pub numeral-decimal :
    (n : ℕ) (rest : Bytes)
    → Stops rest
    → numeral (decimal n ++ rest) ≡ some (record { negative = false; magnitude = n; rest = rest })
numeral-decimal n rest h =
    numeral-Digits (decimal n) rest (decimal-Digits n) (decimal-ne-nil n)
    ∙ rw (scan_digits-decimal n rest h) refl

pub skip_spaces-numeral : (s : Bytes) → numeral (32 ∷ s) ≡ numeral s
unfolding numeral skip_spaces
skip_spaces-numeral s = refl

pub strtoul-decimal :
    (n : ℕ) (rest : Bytes) → n < 2 ^ 64 → Stops rest → strtoul (32 ∷ decimal n ++ rest) ≡ n
unfolding strtoul
strtoul-decimal n rest b h =
    rw (skip_spaces-numeral (decimal n ++ rest) ∙ numeral-decimal n rest h, strtoul) (ground arith)

decimal_fuel-length : (f k n : ℕ) → n < 10 ^ suc k → length (decimal_fuel f n) ≤ suc k
unfolding decimal_fuel
decimal_fuel-length zero k n h = omega arith
decimal_fuel-length (suc f) zero n h = ground (arith, pow-suc 10 0)
decimal_fuel-length (suc f) (suc k) n h = ground (
  arith,
  pow-suc 10 (suc k),
  decimal_fuel-length f k (n / 10),
  length-append (decimal_fuel f (n / 10)) ((n % 10 + b'0') ∷ []),
)

-- A number below a power of ten has no more digits than the exponent says.
pub length-decimal : (k n : ℕ) → n < 10 ^ suc k → length (decimal n) ≤ suc k
unfolding decimal
length-decimal k n h = decimal_fuel-length (suc n) k n h
