-- ===== src/Wire/RoundTrip.antt =====
-- A frame that is written to the private connection is read back, and nothing behind it.
use displayxr_mcp.Prelude.{
  List, ℕ, zero, suc, ◌-◌, ◌^◌, ◌≤◌, ◌<◌, ◌≡◌, refl, ap, ◌∙◌, false, none, some, [], ◌∷◌, ◌++◌,
  length, ◌==◌, Bytes, ascii, arith, length-append, take-append_length, drop-append_length,
  append_assoc,
}
use displayxr_mcp.Libc.{strtoul, decimal}
use displayxr_mcp.Libc.Decimal.{Digits, decimal-Digits, strtoul-decimal, length-decimal}
use displayxr_mcp.Wire.{
  newline, conn_read, read_line, line_room, match_key, c_string, Side, server, adapter, max_frame,
  header_value, is_blank, read_header, read_headers, read_body, read_frame, write_frame,
}

-- The bytes of a header line: neither newline nor NUL.
abbrev pub Plain : Bytes → Type 0
Plain [] = Unit {0}
Plain (c ∷ cs) = ((c == newline) ≡ false) × ((c == 0) ≡ false) × Plain cs

Plain-append : (xs ys : Bytes) → Plain xs → Plain ys → Plain (xs ++ ys)
Plain-append [] ys hx hy = hy
Plain-append (x ∷ xs) ys hx hy = (hx.0, hx.1, Plain-append xs ys hx.2 hy)

Digits-Plain : (ds : Bytes) → Digits ds → Plain ds
Digits-Plain [] d = tt
Digits-Plain (c ∷ cs) d = (ground (arith, d.0), ground (arith, d.0), Digits-Plain cs d.1)

read_line-Plain :
    (room : ℕ) (l rest : Bytes)
    → Plain l
    → length l < room
    → read_line room (l ++ (newline ∷ rest)) ≡ (some (l ++ (newline ∷ [])), rest)
unfolding read_line
read_line-Plain zero l rest p h = absurd (omega arith)
read_line-Plain (suc room) [] rest p h = refl
read_line-Plain (suc room) (c ∷ cs) rest p h = ground (arith, p.0, read_line-Plain room cs rest p.2)

c_string-Plain : (l : Bytes) → Plain l → c_string (l ++ (newline ∷ [])) ≡ l ++ (newline ∷ [])
unfolding c_string
c_string-Plain [] p = refl
c_string-Plain (c ∷ cs) p = ground (arith, p.1, c_string-Plain cs p.2)

-- The header line of a frame, without its newline.
unfoldable pub header_text : ℕ → Bytes
header_text n = ascii "Content-Length: " ++ (decimal n ++ (13 ∷ []))

pub header_text-Plain : (n : ℕ) → Plain (header_text n)
unfolding header_text
header_text-Plain n =
    Plain-append (ascii "Content-Length: ") (decimal n ++ (13 ∷ [])) (ground arith) (
      Plain-append (decimal n) (13 ∷ []) (Digits-Plain (decimal n) (decimal-Digits n))
        (ground arith))

pub length-header_text : (n : ℕ) → n < 10 ^ 20 → length (header_text n) < line_room
unfolding header_text
length-header_text n h = omega (arith, length-append (decimal n) (13 ∷ []), length-decimal 19 n h)

pub header_text-regroup :
    (n : ℕ)
    → header_text n ++ (newline ∷ [])
      ≡ ascii "Content-Length: " ++ (decimal n ++ (13 ∷ newline ∷ []))
unfolding header_text
header_text-regroup n =
    append_assoc (ascii "Content-Length: ") (decimal n ++ (13 ∷ [])) (newline ∷ [])
    ∙ ap (◌++◌ (ascii "Content-Length: ")) (append_assoc (decimal n) (13 ∷ []) (newline ∷ []))

header_text-not_blank : (n : ℕ) → is_blank (header_text n ++ (newline ∷ [])) ≡ false
unfolding header_text
header_text-not_blank n = refl

header_value-key :
    (side : Side) (line v : Bytes)
    → c_string line ≡ ascii "Content-Length: " ++ v
    → header_value side line ≡ some (32 ∷ v)
unfolding header_value match_key
header_value-key server line v e = rw (e, header_value)
header_value-key adapter line v e = ground (arith, e)

header_value-header :
    (side : Side) (n : ℕ)
    → header_value side (header_text n ++ (newline ∷ []))
      ≡ some (32 ∷ (decimal n ++ (13 ∷ newline ∷ [])))
header_value-header side n =
    header_value-key side _ _
      (c_string-Plain (header_text n) (header_text-Plain n) ∙ header_text-regroup n)

-- The header loop on one header line and the blank line that ends the headers.
read_headers-line :
    (side : Side) (f : ℕ) (t v rest : Bytes)
    → Plain t
    → length t < line_room
    → is_blank (t ++ (newline ∷ [])) ≡ false
    → header_value side (t ++ (newline ∷ [])) ≡ some v
    → read_headers side (suc (suc f)) none (t ++ (newline ∷ 13 ∷ newline ∷ rest))
      ≡ (some (strtoul v), rest)
unfolding read_headers read_header
read_headers-line side f t v rest p l b h = ground (
  arith,
  read_line-Plain line_room t (13 ∷ newline ∷ rest) p l,
  read_line-Plain line_room (13 ∷ []) rest (ground arith) (omega arith),
)

read_headers-header :
    (side : Side) (f n : ℕ) (rest : Bytes)
    → n < 2 ^ 64
    → read_headers side (suc (suc f)) none (header_text n ++ (newline ∷ 13 ∷ newline ∷ rest))
      ≡ (some n, rest)
read_headers-header side f n rest h =
    read_headers-line side f (header_text n) _ rest (header_text-Plain n)
      (length-header_text n (omega arith)) (header_text-not_blank n) (header_value-header side n)
    ∙ ap (λ k. (some k, rest)) (strtoul-decimal n (13 ∷ newline ∷ []) h refl)

pub write_frame-header :
    (body rest : Bytes)
    → write_frame body ++ rest
      ≡ header_text (length body) ++ (newline ∷ 13 ∷ newline ∷ (body ++ rest))
unfolding write_frame header_text
write_frame-header body rest = simp append_assoc

read_body-exact :
    (side : Side) (body rest : Bytes)
    → 0 < length body
    → length body ≤ max_frame side
    → read_body side (some (length body)) (body ++ rest) ≡ some (body, rest)
unfolding read_body conn_read
read_body-exact side body rest lo hi =
    ground
      (arith, length-append body rest, take-append_length body rest, drop-append_length body rest)

max_frame-lt : (side : Side) → max_frame side < 2 ^ 63
max_frame-lt server = omega arith
max_frame-lt adapter = omega arith

-- A frame's fuel is enough for its header line and the blank line.
read_frame-headers :
    (side : Side) (t s : Bytes) (n : ℕ) (s' : Bytes)
    → ((f : ℕ) → read_headers side (suc (suc f)) none (t ++ (newline ∷ s)) ≡ (some n, s'))
    → read_frame side (t ++ (newline ∷ s)) ≡ read_body side (some n) s'
unfolding read_frame
read_frame-headers side t s n s' h =
    let len : length (t ++ (newline ∷ s)) ≡ suc (length (t ++ (newline ∷ s)) - 1) =
      omega (arith, length-append t (newline ∷ s)) in
    let found : read_headers side (suc (length (t ++ (newline ∷ s)))) none (t ++ (newline ∷ s))
        ≡ (some n, s') =
      ap (λ k. read_headers side (suc k) none (t ++ (newline ∷ s))) len ∙ h _ in
    rw found

-- Either reader takes a frame that was written for a body of at least one byte and at most its own
-- limit (4 MiB in the server, 16 MiB in the adapter) off the front of the stream, and returns that
-- body and exactly the bytes behind the frame.
pub read_frame-write_frame :
    (side : Side) (body rest : Bytes)
    → 0 < length body
    → length body ≤ max_frame side
    → read_frame side (write_frame body ++ rest) ≡ some (body, rest)
read_frame-write_frame side body rest lo hi =
    ap (read_frame side) (write_frame-header body rest)
    ∙ read_frame-headers side (header_text (length body)) _ (length body) (body ++ rest) (λ f.
      read_headers-header side f (length body) (body ++ rest) (omega (arith, max_frame-lt side)))
    ∙ read_body-exact side body rest lo hi

pub read_frame-nil : (side : Side) → read_frame side [] ≡ none
unfolding read_frame read_headers read_line read_body
read_frame-nil side = refl

-- The bodies that a reader of frames finds one after the other, and what is left behind them.
pub data Reads (side : Side) : Bytes → List Bytes → Bytes → Type 0 where
  stop : {s : Bytes} → Reads side s [] s
  frame :
      {s s' rest : Bytes} {body : Bytes} {bodies : List Bytes}
      → read_frame side s ≡ some (body, s')
      → Reads side s' bodies rest
      → Reads side s (body ∷ bodies) rest

-- One frame more.
pub Reads-snoc :
    {side : Side} {s s' rest : Bytes} {bodies : List Bytes} {body : Bytes}
    → Reads side s bodies s'
    → read_frame side s' ≡ some (body, rest)
    → Reads side s (bodies ++ (body ∷ [])) rest
Reads-snoc stop f = frame f stop
Reads-snoc (frame g r) f = frame g (Reads-snoc r f)
