-- ===== src/Framing/Frames/Next.antt =====
-- adapter/stdio_framing.c: the reader on the messages of a client, in the framing that it detects.
use displayxr_mcp.Prelude.{
  ℕ, ◌<◌, ◌≡◌, ◌≢◌, refl, sym, ap, ◌∙◌, subst, true, false, inl, inr, ◌⊎◌, [], ◌∷◌, ◌++◌, length,
  map, Bytes, ascii, arith,
}
use displayxr_mcp.Wire.{write_frame, newline, match_key, lower}
use displayxr_mcp.Framing.{
  Style, unknown, ndjson, content_length, Reader, stream, rounds, max_message, trim, trim_left,
  trim_right, encode, one_line, next_ndjson, is_ws,
}
use displayxr_mcp.Framing.Ready.{IsReady, Returns}
use displayxr_mcp.Framing.Encode.{next_ndjson-encode}
use displayxr_mcp.Framing.Frames.{
  detect, next_known, next_content_length, reader_next, prefix_match,
}
use displayxr_mcp.Framing.Frames.Body.{next_content_length-write_frame}
use displayxr_mcp.Framing.Frames.Decide.{classify, trim_left-kept, IsPartialKey}
use displayxr_mcp.Framing.Frames.Detect.{detect_lem}

-- A message that a client sends: a JSON object of at most 16 MiB.
abbrev pub IsMessage : Bytes → Type 0
IsMessage body = (cs : Bytes) × (body ≡ b'{' ∷ cs) × (length body < max_message)

-- What the reader makes of a message that a client sent in a framing.
unfoldable pub received : Style → Bytes → Bytes
unfolding trim
received content_length body = body
received ndjson body = trim (map one_line body)
received unknown body = trim (map one_line body)

-- The two framings that a client can have.
abbrev pub IsKnown : Style → Type 0
IsKnown style = style ≢ unknown

trim_right_ne : (c : ℕ) (cs : Bytes) → is_ws c ≡ false → trim_right (c ∷ cs) ≢ []
unfolding trim_right
trim_right_ne c cs w h = ground arith

pub trim-message : (cs : Bytes) → trim (map one_line (b'{' ∷ cs)) ≢ []
unfolding trim trim_left
trim-message cs = trim_right_ne b'{' (map one_line cs) refl

-- The reader once it knows the framing.
next_known-encode :
    (style : Style) (beyond : Bytes) (r : Reader) (body rest : Bytes)
    → IsKnown style
    → IsMessage body
    → IsReady r
    → r.framing ≡ style
    → stream r ≡ encode style body ++ rest
    → Returns style (received style body) rest (next_known beyond r style)
unfolding next_known received encode
next_known-encode unknown beyond r body rest k m v f s = absurd (k refl)
next_known-encode ndjson beyond r body rest k (cs, e, l) v f s =
    subst (λ style. Returns style (trim (map one_line body)) rest (next_ndjson (rounds r) r 0)) f
      (next_ndjson-encode r body rest v s l
        (subst (λ b. trim (map one_line b) ≢ []) (sym e) (trim-message cs)))
next_known-encode content_length beyond r body rest k (cs, e, l) v f s =
    subst (λ style. Returns style body rest (next_content_length beyond r)) f
      (next_content_length-write_frame beyond r body rest v s (omega (arith, ap length e))
        (omega arith))

-- An encoded message: no white space at its front, no byte order mark, no part of the key, and the
-- framing is that of its bytes.
record Opens (style : Style) (s : Bytes) : Type 0 where
  c : ℕ
  cs : Bytes
  split : s ≡ c ∷ cs
  dark : is_ws c ≡ false
  no_mark : c ≢ 0xef
  style_is : classify s ≡ style
  whole : IsPartialKey s → ⊥

line-Opens : (cs : Bytes) → Opens ndjson (b'{' ∷ cs)
unfolding classify match_key lower prefix_match
line-Opens cs = record {
  c = b'{';
  cs = cs;
  split = refl;
  dark = refl;
  no_mark = λ h. omega (arith, h);
  style_is = refl;
  whole = λ h. ground (arith, h.1);
}

frame-Opens : (cs : Bytes) → Opens content_length (ascii "Content-Length: " ++ cs)
unfolding classify match_key lower
frame-Opens cs = record {
  c = b'C';
  cs = ascii "ontent-Length: " ++ cs;
  split = refl;
  dark = refl;
  no_mark = λ h. omega (arith, h);
  style_is = refl;
  whole = λ h. omega (arith, h.0);
}

encode-Opens :
    (style : Style) (body rest : Bytes)
    → IsKnown style
    → IsMessage body
    → Opens style (encode style body ++ rest)
unfolding encode write_frame
encode-Opens unknown body rest k m = absurd (k refl)
encode-Opens ndjson body rest k (cs, e, l) =
    subst (λ b. Opens ndjson (encode ndjson b ++ rest)) (sym e)
      (line-Opens ((map one_line cs ++ (newline ∷ [])) ++ rest))
encode-Opens content_length body rest k m = frame-Opens _

reader_next-known :
    (beyond : Bytes) (r : Reader) (style : Style)
    → r.framing ≡ style
    → IsKnown style
    → reader_next beyond r ≡ next_known beyond r style
unfolding reader_next
reader_next-known beyond r unknown e k = absurd (k refl)
reader_next-known beyond r ndjson e k = rw e
reader_next-known beyond r content_length e k = rw e

reader_next-unknown :
    (beyond : Bytes) (r r' : Reader)
    → r.framing ≡ unknown
    → detect (rounds r) r ≡ (r', true)
    → reader_next beyond r ≡ next_known beyond r' r'.framing
unfolding reader_next
reader_next-unknown beyond r r' e d =
    let found : (detect (rounds r) r).1 ≡ true = ap (λ p. p.1) d in
    let left : (detect (rounds r) r).0 ≡ r' = ap (λ p. p.0) d in
    rw (e, reader_next, found) (ap (λ q. next_known beyond q q.framing) left)

-- A reader that has not yet found the framing reads the first message.
reader_next-first :
    (style : Style) (beyond : Bytes) (r : Reader) (body rest : Bytes)
    → IsKnown style
    → IsMessage body
    → IsReady r
    → r.framing ≡ unknown
    → stream r ≡ encode style body ++ rest
    → Returns style (received style body) rest (reader_next beyond r)
reader_next-first style beyond r body rest k m v f s =
    let o = encode-Opens style body rest k m in
    let trimmed : trim_left (stream r) ≡ o.c ∷ o.cs =
      ap trim_left (s ∙ o.split) ∙ trim_left-kept o.c o.cs o.dark in
    let d = detect_lem r o.c o.cs v trimmed o.no_mark in
    let out = detect (rounds r) r in
    let found : out.0.framing ≡ style = d.style ∙ ap classify (sym o.split) ∙ o.style_is in
    let ready : IsReady out.0 = elim d.ready [
      | inl h ↦ h
      | inr h ↦ absurd (o.whole (subst IsPartialKey (sym o.split) h))
    ] in
    subst (Returns style (received style body) rest)
      (sym (
        reader_next-unknown beyond r out.0 f (ap (λ b. (out.0, b)) d.found)
        ∙ ap (next_known beyond out.0) found))
      (next_known-encode style beyond out.0 body rest k m ready found (d.kept ∙ sym o.split ∙ refl))

-- A message that a client encoded, at the front of what is still to come to a reader before the end
-- of its input, is read back, and exactly what was sent behind it is left, however the input is
-- divided into reads that are not empty and whatever memory holds behind them. This holds in both
-- framings, whether the reader has still to find the framing or knows it, and then it is known. The
-- message is a JSON object of less than 16 MiB; a line loses its line breaks and the white space
-- around it.
pub reader_next-encode :
    (style : Style) (beyond : Bytes) (r : Reader) (body rest : Bytes)
    → IsKnown style
    → IsMessage body
    → IsReady r
    → (r.framing ≡ unknown) ⊎ (r.framing ≡ style)
    → stream r ≡ encode style body ++ rest
    → Returns style (received style body) rest (reader_next beyond r)
reader_next-encode style beyond r body rest k m v (inl f) s =
    reader_next-first style beyond r body rest k m v f s
reader_next-encode style beyond r body rest k m v (inr f) s =
    subst (Returns style (received style body) rest) (sym (reader_next-known beyond r style f k))
      (next_known-encode style beyond r body rest k m v f s)
