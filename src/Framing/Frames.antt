-- ===== src/Framing/Frames.antt =====
-- adapter/stdio_framing.c: the reader of Content-Length frames over the buffer (`header_line`,
-- `next_content_length`), the detection of the framing (`detect`), and the choice between the two
-- readers (`dxr_stdio_reader_next`). `strtoul` is handed the buffer from behind the key on, without
-- its length: `beyond` is what memory holds behind the valid bytes.
pub mod Line
pub mod Body
pub mod Decide
pub mod Rounds
pub mod Detect
pub mod Next
pub mod End
use displayxr_mcp.Prelude.{
  ℕ, zero, suc, ◌+◌, ◌-◌, Bool, true, false, not, ◌&&◌, ◌||◌, Option, none, some, List, [], ◌∷◌,
  ◌++◌, length, take, drop, ltb, leb, ◌==◌, if◌then◌else◌, Bytes, ascii,
}
use displayxr_mcp.Libc.{strtoul}
use displayxr_mcp.Wire.{newline, carriage_return, match_key, length_key, lower}
use displayxr_mcp.Framing.{
  Style, unknown, ndjson, content_length, Reader, rounds, fill, max_message, index_newline,
  trim_left, next_ndjson, is_nil, concat,
}

-- The loop of `header_line`: the index of the newline that ends the line; `none` stands for 0.
pub header_line : ℕ → Reader → Reader × Option ℕ
header_line zero r = (r, none)
header_line (suc fuel) r = elim (index_newline r.buffer) [
  | some i ↦ (r, some i)
  | none ↦ elim (ltb 1024 (length r.buffer)) [
    | true ↦ (r, none)
    | false ↦ elim (fill r).1 [ true ↦ header_line fuel (fill r).0 | false ↦ ((fill r).0, none) ]
  ]
]

-- `blank`, for a line with its newline.
pub is_blank_line : Bytes → Bool
is_blank_line [] = false
is_blank_line (c ∷ []) = true
is_blank_line (c ∷ d ∷ []) = c == carriage_return
is_blank_line (c ∷ d ∷ e ∷ cs) = false

-- What a header line of `n` bytes at the front of the buffer sets `content_length` to.
pub header_length : Bytes → Reader → ℕ → Option ℕ → Option ℕ
header_length beyond r n seen =
    if ltb (length length_key) n
    then (elim (match_key length_key (take n r.buffer)) [
      | none ↦ seen
      | some v ↦ some (strtoul (drop (length length_key) r.buffer ++ beyond))
    ])
    else seen

-- The loop over the headers, up to the blank line behind at least one: the length, if there was one;
-- `none` where a line cannot be read.
pub headers : ℕ → Bytes → Reader → Option ℕ → Bool → Reader × Option (Option ℕ)
unfolding header_line is_blank_line header_length
headers zero beyond r seen any = (r, none)
headers (suc fuel) beyond r seen any =
    let (r', line) = header_line (rounds r) r in
    elim line [
      | none ↦ (r', none)
      | some i ↦
          let rest = record r' { buffer = drop (suc i) r'.buffer } in
          elim (is_blank_line (take (suc i) r'.buffer)) [
            | true ↦ elim any [
              | true ↦ (rest, some seen)
              | false ↦ headers fuel beyond rest seen false
            ]
            | false ↦ headers fuel beyond rest (header_length beyond r' (suc i) seen) true
          ]
    ]

-- The loop that fills the buffer up to `n` bytes, and whether it could.
pub fill_to : ℕ → ℕ → Reader → Reader × Bool
fill_to zero n r = (r, false)
fill_to (suc fuel) n r = elim (ltb (length r.buffer) n) [
  | false ↦ (r, true)
  | true ↦ elim (fill r).1 [ true ↦ fill_to fuel n (fill r).0 | false ↦ ((fill r).0, false) ]
]

-- The body of `n` bytes.
pub take_body : ℕ → Reader → Reader × Option Bytes
unfolding fill_to
take_body n r =
    if n == 0 || ltb max_message n
    then (r, none)
    else (let (r', ok) = fill_to (rounds r) n r in
        if ok
        then (record r' { buffer = drop n r'.buffer }, some (take n r'.buffer))
        else (r', none))

-- `next_content_length`
pub next_content_length : Bytes → Reader → Reader × Option Bytes
unfolding headers take_body
next_content_length beyond r =
    let (r', seen) = headers (rounds r) beyond r none false in
    elim seen [ none ↦ (r', none) | some none ↦ (r', none) | some (some n) ↦ take_body n r' ]

-- The UTF-8 byte order mark at the front of the buffer: what follows it.
pub skip_mark : Bytes → Option Bytes
skip_mark (a ∷ b ∷ c ∷ cs) = if (a == 0xef) && ((b == 0xbb) && (c == 0xbf)) then some cs else none
skip_mark s = none

-- `partial_bom`
pub is_partial_mark : Bytes → Bool
is_partial_mark (a ∷ []) = a == 0xef
is_partial_mark (a ∷ b ∷ []) = (a == 0xef) && (b == 0xbb)
is_partial_mark s = false

-- Does the buffer agree with the key as far as both go?
pub prefix_match : Bytes → Bytes → Bool
unfolding lower
prefix_match [] s = true
prefix_match (k ∷ ks) [] = true
prefix_match (k ∷ ks) (c ∷ cs) = if lower c == k then prefix_match ks cs else false

-- What the bytes in the buffer decide, if they do.
pub decide : Bytes → Option Style
decide s =
    if is_nil s || is_partial_mark s
    then none
    else (if not (prefix_match length_key s)
        then some ndjson
        else (if leb (length length_key) (length s) then some content_length else none))

-- The end of the input in `detect`.
pub detect_end : Reader → Reader × Bool
detect_end r = if is_nil r.buffer then (r, false) else (record r { framing = ndjson }, true)

-- `detect`: whether there was anything.
pub detect : ℕ → Reader → Reader × Bool
detect zero r = (r, false)
detect (suc fuel) r =
    let s = trim_left r.buffer in
    elim (skip_mark s) [
      | some rest ↦ detect fuel (record r { buffer = rest })
      | none ↦
          let r' = record r { buffer = s } in
          elim (decide s) [
            | some style ↦ (record r' { framing = style }, true)
            | none ↦ elim (fill r').1 [
              | true ↦ detect fuel (fill r').0
              | false ↦ detect_end (fill r').0
            ]
          ]
    ]

-- The reader for a framing that is known.
pub next_known : Bytes → Reader → Style → Reader × Option Bytes
unfolding next_content_length
next_known beyond r content_length = next_content_length beyond r
next_known beyond r ndjson = next_ndjson (rounds r) r 0
next_known beyond r unknown = next_ndjson (rounds r) r 0

-- `dxr_stdio_reader_next`
pub reader_next : Bytes → Reader → Reader × Option Bytes
unfolding detect next_known
reader_next beyond r = elim r.framing [
  | unknown ↦
      let (r', found) = detect (rounds r) r in
      if found then next_known beyond r' r'.framing else (r', none)
  | ndjson ↦ next_known beyond r ndjson
  | content_length ↦ next_known beyond r content_length
]
