-- ===== src/Libc.antt =====
-- What the sources use of the C library on numbers in text: `strtol`, `strtoul` and the decimal
-- conversions of `snprintf`. A string is the list of the bytes before its NUL.
pub mod Decimal
use displayxr_mcp.Prelude.{
  ℕ, zero, suc, ◌+◌, ◌-◌, ◌*◌, ◌/◌, ◌%◌, ◌^◌, Bool, true, false, ◌&&◌, ◌||◌, Option, none, some,
  List, [], ◌∷◌, ◌++◌, ltb, leb, ◌==◌, if◌then◌else◌, Bytes,
}

abbrev pub is_digit : ℕ → Bool
is_digit c = leb b'0' c && leb c b'9'

-- `isspace`: blank, and tab to carriage return.
abbrev pub is_space : ℕ → Bool
is_space c = c == 32 || (leb 9 c && leb c 13)

-- The digits at the front, read onto `acc`, and what follows them.
unfoldable pub scan_digits : ℕ → Bytes → ℕ × Bytes
scan_digits acc [] = (acc, [])
scan_digits acc (c ∷ cs) =
    let rest = scan_digits (acc * 10 + (c - b'0')) cs in if is_digit c then rest else (acc, c ∷ cs)

unfoldable pub skip_spaces : Bytes → Bytes
skip_spaces [] = []
skip_spaces (c ∷ cs) = if is_space c then skip_spaces cs else c ∷ cs

-- A number as the conversions read it: its sign, its magnitude before any clamping, and `*end`.
pub record Numeral : Type 0 where
  pub negative : Bool
  pub magnitude : ℕ
  pub rest : Bytes

-- `none` where no digit follows, so that `end == p`.
unfoldable pub unsigned_numeral : Bool → Bytes → Option Numeral
unsigned_numeral negative [] = none
unsigned_numeral negative (c ∷ cs) =
    let (n, r) = scan_digits 0 (c ∷ cs) in
    if is_digit c then some (record { negative = negative; magnitude = n; rest = r }) else none

unfoldable pub signed_numeral : Bytes → Option Numeral
unfolding unsigned_numeral
signed_numeral [] = none
signed_numeral (c ∷ cs) =
    if c == b'-'
    then unsigned_numeral true cs
    else (if c == b'+' then unsigned_numeral false cs else unsigned_numeral false (c ∷ cs))

unfoldable pub numeral : Bytes → Option Numeral
unfolding skip_spaces signed_numeral
numeral s = signed_numeral (skip_spaces s)

-- `strtoul (s, NULL, 10)` at a 64-bit `unsigned long`: 0 without digits, the largest value on
-- overflow, and the negation modulo 2 ^ 64 behind a minus sign.
unfoldable pub strtoul : Bytes → ℕ
unfolding numeral
strtoul s = elim (numeral s) [
  | none ↦ 0
  | some n ↦
      if ltb (2 ^ 64 - 1) n.magnitude
      then 2 ^ 64 - 1
      else (if n.negative then (2 ^ 64 - n.magnitude) % 2 ^ 64 else n.magnitude)
]

-- "%zu", "%llu": the digits, with fuel above the number.
decimal_fuel : ℕ → ℕ → Bytes
decimal_fuel zero n = []
decimal_fuel (suc f) n =
    let front = decimal_fuel f (n / 10) in
    if ltb n 10 then (n + b'0') ∷ [] else front ++ ((n % 10 + b'0') ∷ [])

unfoldable pub decimal : ℕ → Bytes
unfolding decimal_fuel
decimal n = decimal_fuel (suc n) n
