-- ===== src/Wire.antt =====
-- The Content-Length frames of the private connection between adapter and server: `read_line`,
-- `read_frame` and `write_frame` of src/mcp_server.c, and `conn_read_line`, `dxr_conn_read_frame`
-- and `dxr_conn_write_frame` of adapter/stdio_framing.c. A connection is the bytes that its peer
-- has sent and, in the other direction, the bytes written to it; `malloc` does not fail.
pub mod RoundTrip
use displayxr_mcp.Prelude.{
  ℕ, zero, suc, ◌+◌, ◌-◌, ◌*◌, Bool, true, false, not, ◌&&◌, ◌||◌, Option, none, some, List, [],
  ◌∷◌, ◌++◌, length, take, drop, ltb, leb, ◌==◌, if◌then◌else◌, Bytes, ascii,
}
use displayxr_mcp.Libc.{strtoul, decimal}

abbrev pub newline : ℕ
newline = 10

abbrev pub carriage_return : ℕ
carriage_return = 13

-- `mcp_conn_read`: all `n` bytes, or failure.
unfoldable pub conn_read : ℕ → Bytes → Option (Bytes × Bytes)
conn_read n s = if leb n (length s) then some (take n s, drop n s) else none

-- One header line with its newline, of at most `room` bytes (`cap - 1 - n` in the loop). `none` for
-- the end of the stream and for a line that is too long; the bytes left are what was not read.
pub read_line : ℕ → Bytes → Option Bytes × Bytes
read_line zero s = (none, s)
read_line (suc room) [] = (none, [])
read_line (suc room) (c ∷ s) =
    let (l, s') = read_line room s in
    if c == newline
    then (some (c ∷ []), s)
    else (elim l [ none ↦ none | some cs ↦ some (c ∷ cs) ], s')

-- `sizeof(line) - 1`
abbrev pub line_room : ℕ
line_room = 255

-- ASCII lower case, as `lower` and `strncasecmp` compare.
unfoldable pub lower : ℕ → ℕ
lower c = if leb b'A' c && leb c b'Z' then c + 32 else c

-- The key "content-length:" with any case at the front of a line, and what follows it.
unfoldable pub match_key : Bytes → Bytes → Option Bytes
unfolding lower
match_key [] line = some line
match_key (k ∷ ks) [] = none
match_key (k ∷ ks) (c ∷ cs) = if lower c == k then match_key ks cs else none

abbrev pub length_key : Bytes
length_key = ascii "content-length:"

-- The C string in a line buffer: the bytes before the first NUL.
pub c_string : Bytes → Bytes
c_string [] = []
c_string (c ∷ cs) = if c == 0 then [] else c ∷ c_string cs

-- What the two readers do with a line that matches the key: the server takes any match, the
-- adapter wants a byte behind the key.
pub data Side : Type 0 where
  server adapter : Side

-- MAX_FRAME_BYTES and DXR_STDIO_MAX_MESSAGE_BYTES
abbrev pub max_frame : Side → ℕ
max_frame server = 4 * 1024 * 1024
max_frame adapter = 16 * 1024 * 1024

pub header_value : Side → Bytes → Option Bytes
header_value server line = match_key length_key (c_string line)
header_value adapter line =
    if ltb (length length_key) (length (c_string line))
    then match_key length_key (c_string line)
    else none

abbrev pub is_blank : Bytes → Bool
is_blank [] = false
is_blank (c ∷ cs) = c == carriage_return || c == newline

-- A header sets `content_length` and `have_length`; other headers are ignored.
pub read_header : Side → Option ℕ → Bytes → Option ℕ
read_header side seen line = elim (header_value side line) [
  | none ↦ seen
  | some v ↦ some (strtoul v)
]

-- The header loop, on fuel: each round reads a byte at least. It ends at a blank line and where
-- `read_line` fails.
pub read_headers : Side → ℕ → Option ℕ → Bytes → Option ℕ × Bytes
read_headers side zero seen s = (seen, s)
read_headers side (suc fuel) seen s =
    let (l, s') = read_line line_room s in
    elim l [
      | none ↦ (seen, s')
      | some line ↦ elim (is_blank line) [
        | true ↦ (seen, s')
        | false ↦ read_headers side fuel (read_header side seen line) s'
      ]
    ]

-- The body, once the headers are read.
pub read_body : Side → Option ℕ → Bytes → Option (Bytes × Bytes)
read_body side none s = none
read_body side (some n) s = if n == 0 || ltb (max_frame side) n then none else conn_read n s

-- `read_frame` (server) and `dxr_conn_read_frame` (adapter).
pub read_frame : Side → Bytes → Option (Bytes × Bytes)
read_frame side s =
    let (seen, s') = read_headers side (suc (length s)) none s in read_body side seen s'

-- What `write_frame` and `dxr_conn_write_frame` send: the header, then the body.
unfoldable pub write_frame : Bytes → Bytes
write_frame body = (ascii "Content-Length: " ++ (decimal (length body) ++ ascii "\r\n\r\n")) ++ body
