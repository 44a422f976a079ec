-- ===== src/Framing/Frames/End.antt =====
-- adapter/stdio_framing.c: the reader at the end of its input.
use displayxr_mcp.Prelude.{
  ℕ, suc, ◌≡◌, refl, sym, ap, ◌∙◌, false, none, inl, inr, [], length, length_zero, length-append,
  Bytes, arith, ltb,
}
use displayxr_mcp.Framing.{
  Style, unknown, ndjson, content_length, Reader, concat, stream, rounds, fill, trim, trim_left,
  trim_right, next_ndjson, last_line, index_newline, search_newline,
}
use displayxr_mcp.Framing.Fill.{fill-end, concat_cases}
use displayxr_mcp.Framing.Ready.{IsReady}
use displayxr_mcp.Framing.Frames.Rounds.{skipped, detect-ended}
use displayxr_mcp.Framing.Frames.{
  detect, detect_end, skip_mark, decide, next_known, next_content_length, reader_next, headers,
  header_line,
}

-- A reader whose input is at its end, and what `fill` makes of it.
record AtEnd (r : Reader) : Type 0 where
  blank : r.buffer ≡ []
  empty : r.source ≡ []
  filled : Reader
  fails : fill r ≡ (filled, false)
  still : filled.buffer ≡ []

stream-AtEnd : (r : Reader) → IsReady r → stream r ≡ [] → AtEnd r
stream-AtEnd r v s =
    let sum = length-append r.buffer (concat r.source) in
    let size : length (stream r) ≡ 0 = ap length s in
    let blank : r.buffer ≡ [] = length_zero r.buffer (omega arith) in
    let empty : r.source ≡ [] = elim (concat_cases r.source v.chunks) [
      | inl e ↦ e
      | inr more ↦ absurd (omega arith)
    ] in
    let (r', fails, ended) = fill-end r v (omega arith) empty in
    record { blank = blank; empty = empty; filled = r'; fails = fails; still = ended.same ∙ blank }

-- The two results of the `fill` that fails.
fails-AtEnd : (r : Reader) (h : AtEnd r) → (fill r).1 ≡ false
fails-AtEnd r h = ap (λ p. p.1) h.fails

filled-AtEnd : (r : Reader) (h : AtEnd r) → (fill r).0.buffer ≡ []
filled-AtEnd r h = ap (λ p. p.0.buffer) h.fails ∙ h.still

no_line : (r : Reader) → AtEnd r → search_newline 0 r.buffer ≡ none
unfolding search_newline index_newline
no_line r h = ap (search_newline 0) h.blank

last_line-blank : (r : Reader) → r.buffer ≡ [] → (last_line r).1 ≡ none
unfolding last_line trim trim_left trim_right
last_line-blank r e = rw e

next_ndjson-AtEnd : (fuel : ℕ) (r : Reader) → AtEnd r → (next_ndjson (suc fuel) r 0).1 ≡ none
unfolding next_ndjson
next_ndjson-AtEnd fuel r h =
    rw (no_line r h, next_ndjson, fails-AtEnd r h) (last_line-blank (fill r).0 (filled-AtEnd r h))

header_line-AtEnd : (fuel : ℕ) (r : Reader) → AtEnd r → (header_line (suc fuel) r).1 ≡ none
unfolding header_line index_newline
header_line-AtEnd fuel r h =
    let line : index_newline r.buffer ≡ none = ap index_newline h.blank in
    let short : ltb 1024 (length r.buffer) ≡ false = ap (λ b. ltb 1024 (length b)) h.blank in
    rw (line, header_line, short, fails-AtEnd r h)

headers-AtEnd :
    (fuel : ℕ) (beyond : Bytes) (r : Reader)
    → AtEnd r
    → (headers (suc fuel) beyond r none false).1 ≡ none
unfolding headers
headers-AtEnd fuel beyond r h =
    let line : (header_line (rounds r) r).1 ≡ none = header_line-AtEnd _ r h in rw (line, headers)

next_content_length-AtEnd :
    (beyond : Bytes) (r : Reader) → AtEnd r → (next_content_length beyond r).1 ≡ none
unfolding next_content_length
next_content_length-AtEnd beyond r h =
    let seen : (headers (rounds r) beyond r none false).1 ≡ none = headers-AtEnd _ beyond r h in
    rw (seen, next_content_length)

detect_end-blank : (r : Reader) → r.buffer ≡ [] → (detect_end r).1 ≡ false
unfolding detect_end
detect_end-blank r e = rw e

detect-AtEnd : (fuel : ℕ) (r : Reader) → AtEnd r → (detect (suc fuel) r).1 ≡ false
unfolding skip_mark decide trim_left
detect-AtEnd fuel r h =
    let same : skipped r ≡ r =
      ap (λ b. record r { buffer = b }) (ap trim_left h.blank ∙ sym h.blank) in
    ap (λ p. p.1)
      (detect-ended fuel r h.filled (ap (λ b. skip_mark (trim_left b)) h.blank)
        (ap (λ b. decide (trim_left b)) h.blank) (ap fill same ∙ h.fails))
    ∙ detect_end-blank h.filled h.still

reader_next-blank :
    (beyond : Bytes) (r : Reader)
    → r.framing ≡ unknown
    → (detect (rounds r) r).1 ≡ false
    → (reader_next beyond r).1 ≡ none
unfolding reader_next
reader_next-blank beyond r e d = rw (e, reader_next, d)

reader_next-style :
    (beyond : Bytes) (r : Reader) (style : Style)
    → r.framing ≡ style
    → AtEnd r
    → (reader_next beyond r).1 ≡ none
unfolding reader_next next_known
reader_next-style beyond r unknown e h = reader_next-blank beyond r e (detect-AtEnd _ r h)
reader_next-style beyond r ndjson e h = rw (e, reader_next) (next_ndjson-AtEnd _ r h)
reader_next-style beyond r content_length e h =
    rw (e, reader_next) (next_content_length-AtEnd beyond r h)

-- A reader whose input is at its end returns no message, whether it knows the framing or not.
pub reader_next-end :
    (beyond : Bytes) (r : Reader) → IsReady r → stream r ≡ [] → (reader_next beyond r).1 ≡ none
reader_next-end beyond r v s = reader_next-style beyond r r.framing refl (stream-AtEnd r v s)
