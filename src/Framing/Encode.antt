-- ===== src/Framing/Encode.antt =====
-- adapter/stdio_framing.c: a message that is encoded as a line is read back by the reader.
use displayxr_mcp.Prelude.{
  ℕ, ◌<◌, ◌≡◌, ◌≢◌, refl, ◌∙◌, [], ◌∷◌, ◌++◌, length, map, Bytes, arith, append_assoc,
}
use displayxr_mcp.Wire.{newline}
use displayxr_mcp.Framing.{
  rounds, stream, ndjson, Reader, trim, next_ndjson, encode, one_line, max_message,
}
use displayxr_mcp.Framing.Ready.{IsReady, Returns}
use displayxr_mcp.Framing.Ndjson.{NoNewline, next_ndjson_lem}

one_line_ne : (c : ℕ) → one_line c ≢ newline
one_line_ne c h = ground arith

map-NoNewline : (s : Bytes) → NoNewline (map one_line s)
map-NoNewline [] = tt
map-NoNewline (c ∷ cs) = (one_line_ne c, map-NoNewline cs)

pub length-one_line : (s : Bytes) → length (map one_line s) ≡ length s
length-one_line [] = refl
length-one_line (c ∷ cs) = omega (arith, length-one_line cs)

encode-ndjson :
    (body rest : Bytes) → encode ndjson body ++ rest ≡ map one_line body ++ (newline ∷ rest)
unfolding encode
encode-ndjson body rest = append_assoc (map one_line body) (newline ∷ []) rest

-- A body that was encoded as a line, at the front of what is still to come to a reader before the
-- end of its input, is read back with its line breaks turned into spaces and without the white
-- space around it, and exactly what was sent behind it is left, however the input is divided into
-- reads that are not empty. The body is not blank and shorter than 16 MiB.
pub next_ndjson-encode :
    (r : Reader) (body rest : Bytes)
    → IsReady r
    → stream r ≡ encode ndjson body ++ rest
    → length body < max_message
    → trim (map one_line body) ≢ []
    → Returns r.framing (trim (map one_line body)) rest (next_ndjson (rounds r) r 0)
next_ndjson-encode r body rest v s l t =
    next_ndjson_lem r (map one_line body) rest v (s ∙ encode-ndjson body rest) (map-NoNewline body)
      (omega (arith, length-one_line body)) t
