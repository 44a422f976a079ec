-- ===== src/Framing.antt =====
-- adapter/stdio_framing.c: the buffered reader of the agent's messages, for newline-delimited JSON,
-- the encoder of a reply, and the latch of the framing. The reader's buffer is the bytes that are
-- not consumed; `fill` moves them to the front before it compares the length with the capacity.
pub mod Ready
pub mod Fill
pub mod Ndjson
pub mod Encode
pub mod Frames
mod Tests
use displayxr_mcp.Prelude.{
  ℕ, zero, suc, ◌+◌, ◌-◌, ◌*◌, ◌^◌, Bool, true, false, not, ◌&&◌, ◌||◌, Option, none, some, List,
  [], ◌∷◌, ◌++◌, length, take, drop, ltb, ◌==◌, if◌then◌else◌, Bytes, map,
}
use displayxr_mcp.Wire.{newline, carriage_return, write_frame}

-- DXR_STDIO_MAX_MESSAGE_BYTES
abbrev pub max_message : ℕ
max_message = 2 ^ 24

-- `enum dxr_stdio_framing`
pub data Style : Type 0 where
  unknown ndjson content_length : Style

-- `struct dxr_stdio_reader`. The source is what the reads to come find, read by read; an empty one
-- is the end of the input.
pub record Reader : Type 0 where
  pub buffer : Bytes
  pub capacity : ℕ
  pub eof : Bool
  pub framing : Style
  pub source : List Bytes

-- What is still to come: the buffer and then the source.
abbrev pub concat : List Bytes → Bytes
concat [] = []
concat (c ∷ cs) = c ++ concat cs

abbrev pub stream : Reader → Bytes
stream r = r.buffer ++ concat r.source

-- Fuel for the reader's loops: each round takes a byte of the source into the buffer, or a byte of
-- the buffer away.
abbrev pub rounds : Reader → ℕ
rounds r = suc (length (stream r) + length (concat r.source))

-- A read of at most `room` bytes.
pub read_source : ℕ → List Bytes → Bytes × List Bytes
read_source room [] = ([], [])
read_source room (c ∷ cs) = (take room c, if ltb room (length c) then drop room c ∷ cs else cs)

-- The end of `fill`, behind the growth of the buffer.
pub fill_room : Reader → Reader × Bool
unfolding read_source
fill_room r =
    let (bytes, source) = read_source (r.capacity - length r.buffer) r.source in
    elim bytes [
      | [] ↦ (record r { eof = true; source = source }, false)
      | b ∷ bs ↦ (record r { buffer = r.buffer ++ (b ∷ bs); source = source }, true)
    ]

-- `r->cap ? r->cap * 2 : 4096`
pub grown : ℕ → ℕ
grown zero = 4096
grown (suc c) = suc c * 2

-- `fill`, with whether it took a byte.
pub fill : Reader → Reader × Bool
unfolding fill_room grown
fill r =
    if r.eof
    then (r, false)
    else (if length r.buffer == r.capacity
        then (if ltb (max_message + 4096) (grown r.capacity)
            then (r, false)
            else fill_room (record r { capacity = grown r.capacity }))
        else fill_room r)

abbrev pub is_ws : ℕ → Bool
is_ws c = (c == b' ') || ((c == 9) || ((c == carriage_return) || (c == newline)))

-- The two loops that trim a line.
unfoldable pub trim_left : Bytes → Bytes
trim_left [] = []
trim_left (c ∷ cs) = if is_ws c then trim_left cs else c ∷ cs

abbrev pub is_nil : Bytes → Bool
is_nil [] = true
is_nil (c ∷ cs) = false

unfoldable pub trim_right : Bytes → Bytes
trim_right [] = []
trim_right (c ∷ cs) = if is_nil (trim_right cs) && is_ws c then [] else c ∷ trim_right cs

unfoldable pub trim : Bytes → Bytes
unfolding trim_left trim_right
trim s = trim_right (trim_left s)

-- `memchr`: the index of the first newline.
pub index_newline : Bytes → Option ℕ
index_newline [] = none
index_newline (c ∷ cs) =
    if c == newline
    then some 0
    else (elim (index_newline cs) [ none ↦ none | some i ↦ some (suc i) ])

-- The index of the first newline from the index `scan` on.
pub search_newline : ℕ → Bytes → Option ℕ
unfolding index_newline
search_newline scan s = elim (index_newline (drop scan s)) [
  | none ↦ none
  | some i ↦ some (scan + i)
]

-- The end of the input in `next_ndjson`: a last line without newline.
pub last_line : Reader → Reader × Option Bytes
unfolding trim
last_line r =
    let line = trim r.buffer in
    (record r { buffer = [] }, if is_nil line || not r.eof then none else some line)

-- `next_ndjson` from the index `scan` on; each round takes a line or a byte of the source.
pub next_ndjson : ℕ → Reader → ℕ → Reader × Option Bytes
unfolding trim
next_ndjson zero r scan = (r, none)
next_ndjson (suc fuel) r scan = elim (search_newline scan r.buffer) [
  | some i ↦ elim (trim (take i r.buffer)) [
    | [] ↦ next_ndjson fuel (record r { buffer = drop (suc i) r.buffer }) 0
    | c ∷ cs ↦ (
      record r { buffer = drop (suc i) r.buffer },
      if ltb max_message (length (c ∷ cs)) then none else some (c ∷ cs),
    )
  ]
  | none ↦ elim (fill r).1 [
    | true ↦ next_ndjson fuel (fill r).0 (length r.buffer)
    | false ↦ last_line (fill r).0
  ]
]

-- A byte of a body in a line of its own.
abbrev pub one_line : ℕ → ℕ
one_line c = if (c == newline) || (c == carriage_return) then b' ' else c

-- `dxr_stdio_encode`
unfoldable pub encode : Style → Bytes → Bytes
encode content_length body = write_frame body
encode unknown body = map one_line body ++ (newline ∷ [])
encode ndjson body = map one_line body ++ (newline ∷ [])

-- `dxr_stdio_framing_latch_set` and one look of `dxr_stdio_framing_latch_wait`, which goes on
-- waiting at `none`.
unfoldable pub latch_set : Style → Style → Style
latch_set unknown style = style
latch_set ndjson style = ndjson
latch_set content_length style = content_length

unfoldable pub latch_look : Style → Option Style
latch_look unknown = none
latch_look ndjson = some ndjson
latch_look content_length = some content_length
