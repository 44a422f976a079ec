-- ===== src/Allowlist/Parse.antt =====
-- The parser of the allowlist: its rounds are bounded, and it reads back a printed list.
use displayxr_mcp.Prelude.{
  ℕ, zero, suc, ◌+◌, ◌-◌, ◌*◌, ◌^◌, ◌≤◌, ◌<◌, ◌≡◌, ◌≢◌, refl, sym, ap, ◌∙◌, Bool, true, false,
  Option, none, some, List, [], ◌∷◌, ◌++◌, length, length-append, take, take-nil, leb,
  if◌then◌else◌, Bytes, arith, Bool-cases, inl, inr, append-nil, append_assoc,
}
use displayxr_mcp.Libc.{
  scan_digits, skip_spaces, Numeral, unsigned_numeral, signed_numeral, numeral, decimal,
}
use displayxr_mcp.Libc.Decimal.{Digits, Stops, decimal-Digits, decimal-ne-nil, numeral-decimal}
use displayxr_mcp.Allowlist.{
  Abi, lp64, max_entries, nonneg_long, above_uint32_max, id_of, skip_separators, token, snoc_option,
  parse_entries,
}

length-scan_digits : (acc : ℕ) (s : Bytes) → length (scan_digits acc s).1 ≤ length s
unfolding scan_digits
length-scan_digits acc [] = omega arith
length-scan_digits acc (c ∷ cs) = ground (arith, length-scan_digits (acc * 10 + (c - b'0')) cs)

length-unsigned_numeral :
    (b : Bool) (s : Bytes) {n : Numeral} → unsigned_numeral b s ≡ some n → length n.rest < length s
unfolding unsigned_numeral scan_digits
length-unsigned_numeral b [] h = cc
length-unsigned_numeral b (c ∷ cs) h = ground (arith, length-scan_digits (0 * 10 + (c - b'0')) cs)

length-signed_numeral :
    (s : Bytes) {n : Numeral} → signed_numeral s ≡ some n → length n.rest < length s
unfolding signed_numeral
length-signed_numeral [] h = cc
length-signed_numeral (c ∷ cs) {n} h = ground (
  arith,
  length-unsigned_numeral true cs {n = n},
  length-unsigned_numeral false cs {n = n},
  length-unsigned_numeral false (c ∷ cs) {n = n},
)

length-skip_spaces : (s : Bytes) → length (skip_spaces s) ≤ length s
unfolding skip_spaces
length-skip_spaces [] = omega arith
length-skip_spaces (c ∷ cs) = ground (arith, length-skip_spaces cs)

-- A conversion that finds a number moves on.
length-numeral : (s : Bytes) {n : Numeral} → numeral s ≡ some n → length n.rest < length s
unfolding numeral
length-numeral s h = omega (arith, length-signed_numeral (skip_spaces s) h, length-skip_spaces s)

length-skip_separators : (s : Bytes) → length (skip_separators s) ≤ length s
unfolding skip_separators
length-skip_separators [] = omega arith
length-skip_separators (c ∷ cs) = ground (arith, length-skip_separators cs)

length-token :
    (c : ℕ) (cs : Bytes) (abi : Abi) (o : Option Numeral)
    → numeral (c ∷ cs) ≡ o
    → length (token c cs o abi).1 < length (c ∷ cs)
unfolding token
length-token c cs abi none e = omega arith
length-token c cs abi (some n) e = omega (arith, length-numeral (c ∷ cs) e)

parse_step-fuel :
    (abi : Abi) (f g : ℕ) (p q : Bytes) (es : List ℕ)
    → skip_separators p ≡ q
    → ((p' : Bytes) (es' : List ℕ)
        → length p' < length q
        → parse_entries abi f p' es' ≡ parse_entries abi g p' es')
    → parse_entries abi (suc f) p es ≡ parse_entries abi (suc g) p es
unfolding parse_entries
parse_step-fuel abi f g p [] es e ih = ground (arith, e)
parse_step-fuel abi f g p (c ∷ cs) es e ih =
    let next =
      ih (token c cs (numeral (c ∷ cs)) abi).1
        (snoc_option es (token c cs (numeral (c ∷ cs)) abi).0)
        (length-token c cs abi (numeral (c ∷ cs)) refl) in
    ground (arith, e, next)

-- Any fuel above the number of bytes left gives the same entries: the loop ends by its own tests.
pub parse_entries-fuel :
    (abi : Abi) (f g : ℕ) (p : Bytes) (es : List ℕ)
    → length p < f
    → length p < g
    → parse_entries abi f p es ≡ parse_entries abi g p es
parse_entries-fuel abi zero g p es h k = absurd (omega arith)
parse_entries-fuel abi (suc f) zero p es h k = absurd (omega arith)
parse_entries-fuel abi (suc f) (suc g) p es h k =
    parse_step-fuel abi f g p (skip_separators p) es refl λ p' es' b.
      parse_entries-fuel abi f g p' es' (omega (arith, length-skip_separators p))
        (omega (arith, length-skip_separators p))

-- The documented form of the variable: decimal ids with commas between them.
pub csv_tail : List ℕ → Bytes
csv_tail [] = []
csv_tail (x ∷ xs) = b',' ∷ (decimal x ++ csv_tail xs)

unfoldable pub csv : List ℕ → Bytes
unfolding csv_tail
csv [] = []
csv (x ∷ xs) = decimal x ++ csv_tail xs

-- Every id is a `uint32_t`.
abbrev pub Ids : List ℕ → Type 0
Ids [] = Unit {0}
Ids (x ∷ xs) = (x < 2 ^ 32) × Ids xs

append-ne-nil : (xs ys : Bytes) → xs ≢ [] → xs ++ ys ≢ []
append-ne-nil [] ys h e = h refl
append-ne-nil (x ∷ xs) ys h e = cc

skip_separators-Digits :
    (ds rest : Bytes) → Digits ds → ds ≢ [] → skip_separators (ds ++ rest) ≡ ds ++ rest
unfolding skip_separators
skip_separators-Digits [] rest d h = absurd (h refl)
skip_separators-Digits (c ∷ cs) rest d h = ground arith

skip_separators-csv_tail :
    (x : ℕ) (xs : List ℕ) → skip_separators (csv_tail (x ∷ xs)) ≡ decimal x ++ csv_tail xs
unfolding csv_tail skip_separators
skip_separators-csv_tail x xs =
    skip_separators-Digits (decimal x) (csv_tail xs) (decimal-Digits x) (decimal-ne-nil x)

csv_tail-Stops : (xs : List ℕ) → Stops (csv_tail xs)
unfolding csv_tail
csv_tail-Stops [] = tt
csv_tail-Stops (x ∷ xs) = refl

id_of-decimal :
    (x : ℕ) (rest : Bytes)
    → x < 2 ^ 32
    → id_of lp64 (record { negative = false; magnitude = x; rest = rest }) ≡ some x
unfolding id_of nonneg_long above_uint32_max
id_of-decimal x rest h = ground arith

-- A round at a printed id appends it.
parse_entries-id :
    (f : ℕ) (p : Bytes) (q : Bytes) (es : List ℕ) (x : ℕ) (xs : List ℕ)
    → q ≡ decimal x ++ csv_tail xs
    → skip_separators p ≡ q
    → x < 2 ^ 32
    → parse_entries lp64 (suc f) p es ≡ (
        if leb max_entries (length es)
        then es
        else parse_entries lp64 f (csv_tail xs) (es ++ (x ∷ [])))
unfolding parse_entries token
parse_entries-id f p [] es x xs e k h =
    absurd (append-ne-nil (decimal x) (csv_tail xs) (decimal-ne-nil x) (sym e))
parse_entries-id f p (c ∷ cs) es x xs e k h = ground (
  arith,
  k,
  ap numeral e ∙ numeral-decimal x (csv_tail xs) (csv_tail-Stops xs),
  id_of-decimal x (csv_tail xs) h,
)

parse_entries-nil : (f : ℕ) (es : List ℕ) → parse_entries lp64 (suc f) [] es ≡ es
unfolding parse_entries skip_separators
parse_entries-nil f es = ground arith

length_pos : (s : Bytes) → s ≢ [] → 0 < length s
length_pos [] h = absurd (h refl)
length_pos (c ∷ cs) h = omega arith

take_room :
    (room x : ℕ) (es xs : List ℕ)
    → 0 < room
    → (es ++ (x ∷ [])) ++ take (room - 1) xs ≡ es ++ take room (x ∷ xs)
take_room zero x es xs h = absurd (omega arith)
take_room (suc room) x es xs h =
    append_assoc es (x ∷ []) (take (suc room - 1) xs)
    ∙ ap (λ k. es ++ (x ∷ take k xs)) (omega arith)

-- The rest of a printed list is appended, as far as the table has room.
parse_entries-printed :
    (f : ℕ) (p : Bytes) (es : List ℕ) (x : ℕ) (xs : List ℕ)
    → skip_separators p ≡ decimal x ++ csv_tail xs
    → length es ≤ max_entries
    → x < 2 ^ 32
    → (length es < max_entries
        → parse_entries lp64 f (csv_tail xs) (es ++ (x ∷ []))
          ≡ (es ++ (x ∷ [])) ++ take (max_entries - length (es ++ (x ∷ []))) xs)
    → parse_entries lp64 (suc f) p es ≡ es ++ take (max_entries - length es) (x ∷ xs)
parse_entries-printed f p es x xs e l h rest = elim (Bool-cases (leb max_entries (length es))) [
  | inl full ↦
      let none_left : max_entries - length es ≡ 0 = ground arith in
      parse_entries-id f p _ es x xs refl e h ∙ rw (full, none_left) (sym (append-nil es))
  | inr more ↦
      let less : length es < max_entries = ground arith in
      let room : max_entries - length (es ++ (x ∷ [])) ≡ max_entries - length es - 1 =
        omega (arith, length-append es (x ∷ [])) in
      parse_entries-id f p _ es x xs refl e h
      ∙ rw (more, rest less, room) (take_room (max_entries - length es) x es xs (omega arith))
]

parse_entries-csv_tail :
    (f : ℕ) (es xs : List ℕ)
    → length (csv_tail xs) < f
    → length es ≤ max_entries
    → Ids xs
    → parse_entries lp64 f (csv_tail xs) es ≡ es ++ take (max_entries - length es) xs
unfolding csv_tail
parse_entries-csv_tail zero es xs b l h = absurd (omega arith)
parse_entries-csv_tail (suc f) es [] b l h =
    parse_entries-nil f es
    ∙ sym (append-nil es)
    ∙ ap (◌++◌ es) (sym (take-nil (max_entries - length es)))
parse_entries-csv_tail (suc f) es (x ∷ xs) b l h =
    parse_entries-printed f _ es x xs (skip_separators-csv_tail x xs) l h.0 λ less.
      parse_entries-csv_tail f (es ++ (x ∷ [])) xs
        (omega (arith, length-append (decimal x) (csv_tail xs)))
        (omega (arith, length-append es (x ∷ []))) h.1

-- Where `long` has 64 bits, a documented value of the variable parses to its first 64 ids, in
-- order.
pub parse_entries-csv :
    (ids : List ℕ)
    → Ids ids
    → parse_entries lp64 (suc (length (csv ids))) (csv ids) [] ≡ take max_entries ids
unfolding csv
parse_entries-csv [] h = parse_entries-nil _ []
parse_entries-csv (x ∷ xs) h =
    parse_entries-printed _ _ [] x xs
      (skip_separators-Digits (decimal x) (csv_tail xs) (decimal-Digits x) (decimal-ne-nil x))
      (omega arith) h.0
      λ less.
        parse_entries-csv_tail _ (x ∷ []) xs
          (omega (
            arith,
            length-append (decimal x) (csv_tail xs),
            length_pos (decimal x) (decimal-ne-nil x),
          ))
          (omega arith) h.1
