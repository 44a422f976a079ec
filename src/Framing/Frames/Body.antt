-- ===== src/Framing/Frames/Body.antt =====
-- adapter/stdio_framing.c: a Content-Length frame is read back, however the input is divided.
use displayxr_mcp.Prelude.{
  ℕ, suc, ◌-◌, ◌≤◌, ◌<◌, ◌^◌, ◌≡◌, refl, sym, ap, ◌∙◌, subst, Bool, true, false, Option, none, some,
  [], ◌∷◌, ◌++◌, length, length-append, take, drop, length-drop, append_assoc, ltb, Bytes, ascii,
  arith,
}
use displayxr_mcp.Libc.{strtoul, decimal}
use displayxr_mcp.Libc.Decimal.{strtoul-decimal}
use displayxr_mcp.Wire.{newline, match_key, length_key, lower, write_frame}
use displayxr_mcp.Wire.RoundTrip.{
  Plain, header_text, header_text-Plain, length-header_text, write_frame-header,
}
use displayxr_mcp.Framing.{Reader, concat, stream, rounds, max_message}
use displayxr_mcp.Framing.Ready.{IsReady, Returns}
use displayxr_mcp.Framing.Ndjson.{NoNewline}
use displayxr_mcp.Framing.Frames.{
  header_line, is_blank_line, header_length, headers, take_body, next_content_length,
}
use displayxr_mcp.Framing.Frames.Line.{GoesOn, prefix-take, take_body_lem, header_line_lem}

-- A line that is taken off the stream, and the reader behind it.
abbrev behind : ℕ → Reader → Reader
behind i r = record r { buffer = drop (suc i) r.buffer }

record TookLine (line rest : Bytes) (r r' : Reader) : Type 0 where
  text : take (suc (length line)) r'.buffer ≡ line ++ (newline ∷ [])
  ready : IsReady (behind (length line) r')
  left : stream (behind (length line) r') ≡ rest
  style : r'.framing ≡ r.framing

took_line :
    (r r' : Reader) (line rest b : Bytes)
    → stream r ≡ line ++ (newline ∷ rest)
    → r'.buffer ≡ line ++ (newline ∷ b)
    → GoesOn r r'
    → TookLine line rest r r'
took_line r r' line rest b s p g =
    let whole = line ++ (newline ∷ []) in
    let size = length-append line (newline ∷ []) in
    let same_size : length whole ≡ suc (length line) = omega arith in
    let long : length whole ≤ length r'.buffer =
      omega (arith, ap length p, length-append line (newline ∷ b)) in
    let ready = g.ready in
    let t =
      prefix-take r'.buffer (concat r'.source) whole rest
        (g.same ∙ s ∙ sym (append_assoc line (newline ∷ []) rest)) long in
    record {
      text = ap (λ k. take k r'.buffer) (sym same_size) ∙ t.0;
      ready = record {
        more = ready.more;
        fits = omega (arith, ready.fits, length-drop (suc (length line)) r'.buffer);
        sized = ready.sized;
        chunks = ready.chunks;
      };
      left = ap (λ k. drop k r'.buffer ++ concat r'.source) (sym same_size) ∙ t.1;
      style = g.style;
    }

headers-header :
    (fuel : ℕ) (beyond : Bytes) (r : Reader) (i : ℕ) (seen : Option ℕ) (any : Bool)
    → let out = header_line (rounds r) r in
      out.1 ≡ some i
      → is_blank_line (take (suc i) out.0.buffer) ≡ false
      → headers (suc fuel) beyond r seen any
        ≡ headers fuel beyond (behind i out.0) (header_length beyond out.0 (suc i) seen) true
unfolding headers
headers-header fuel beyond r i seen any e b = rw (e, headers, b)

headers-end :
    (fuel : ℕ) (beyond : Bytes) (r : Reader) (i : ℕ) (seen : Option ℕ)
    → let out = header_line (rounds r) r in
      out.1 ≡ some i
      → is_blank_line (take (suc i) out.0.buffer) ≡ true
      → headers (suc fuel) beyond r seen true ≡ (behind i out.0, some seen)
unfolding headers
headers-end fuel beyond r i seen e b = rw (e, headers, b)

blank_crlf : is_blank_line (13 ∷ newline ∷ []) ≡ true
unfolding is_blank_line
blank_crlf = refl

-- One header line and the blank line: the headers end with what the line sets the length to.
record Headed (r : Reader) (n : ℕ) (rest : Bytes) (out : Reader × Option (Option ℕ)) : Type 0 where
  seen : out.1 ≡ some (some n)
  ready : IsReady out.0
  left : stream out.0 ≡ rest
  style : out.0.framing ≡ r.framing

headers_lem :
    (fuel : ℕ) (beyond : Bytes) (r : Reader) (line rest : Bytes) (n : ℕ)
    → IsReady r
    → stream r ≡ line ++ (newline ∷ 13 ∷ newline ∷ rest)
    → NoNewline line
    → length line ≤ 1024
    → is_blank_line (line ++ (newline ∷ [])) ≡ false
    → ((r' : Reader) (b : Bytes)
        → r'.buffer ≡ line ++ (newline ∷ b)
        → header_length beyond r' (suc (length line)) none ≡ some n)
    → Headed r n rest (headers (suc (suc fuel)) beyond r none false)
headers_lem fuel beyond r line rest n v s nl l blank h =
    let out = header_line (rounds r) r in
    let first =
      header_line_lem (rounds r) r line (13 ∷ newline ∷ rest) v s nl l
        (omega (arith, length-append r.buffer (concat r.source))) in
    let took = took_line r out.0 line (13 ∷ newline ∷ rest) first.1.0 s first.1.1 first.1.2 in
    let r1 = behind (length line) out.0 in
    let out' = header_line (rounds r1) r1 in
    let second =
      header_line_lem (rounds r1) r1 (13 ∷ []) rest took.ready took.left ((λ e. cc), tt)
        (omega arith) (omega (arith, length-append r1.buffer (concat r1.source))) in
    let took' = took_line r1 out'.0 (13 ∷ []) rest second.1.0 took.left second.1.1 second.1.2 in
    let step : headers (suc (suc fuel)) beyond r none false ≡ (behind 1 out'.0, some (some n)) =
      headers-header (suc fuel) beyond r (length line) none false first.0
        (ap is_blank_line took.text ∙ blank)
      ∙ ap (λ x. headers (suc fuel) beyond r1 x true) (h out.0 first.1.0 first.1.1)
      ∙ headers-end fuel beyond r1 1 (some n) second.0 (ap is_blank_line took'.text ∙ blank_crlf) in
    subst (Headed r n rest) (sym step) (record {
      seen = refl;
      ready = took'.ready;
      left = took'.left;
      style = took'.style ∙ took.style;
    })

NoNewline-Plain : (l : Bytes) → Plain l → NoNewline l
NoNewline-Plain [] p = tt
NoNewline-Plain (c ∷ cs) p = (λ e. ground (arith, p.0), NoNewline-Plain cs p.2)

take_line : (l b : Bytes) → take (suc (length l)) (l ++ (newline ∷ b)) ≡ l ++ (newline ∷ [])
take_line [] b = refl
take_line (c ∷ cs) b = ap (◌∷◌ c) (take_line cs b)

match_key-text : (x : Bytes) → match_key length_key (ascii "Content-Length: " ++ x) ≡ some (32 ∷ x)
unfolding match_key lower
match_key-text x = refl

header_text-line :
    (n : ℕ) (b : Bytes)
    → header_text n ++ (newline ∷ b) ≡ ascii "Content-Length: " ++ (decimal n ++ (13 ∷ newline ∷ b))
unfolding header_text
header_text-line n b =
    append_assoc (ascii "Content-Length: ") (decimal n ++ (13 ∷ [])) (newline ∷ b)
    ∙ ap (◌++◌ (ascii "Content-Length: ")) (append_assoc (decimal n) (13 ∷ []) (newline ∷ b))

header_text-long : (n : ℕ) → ltb (length length_key) (suc (length (header_text n))) ≡ true
unfolding header_text
header_text-long n = ground arith

header_length-some :
    (beyond : Bytes) (r : Reader) (n : ℕ) (v : Bytes)
    → ltb (length length_key) n ≡ true
    → match_key length_key (take n r.buffer) ≡ some v
    → header_length beyond r n none ≡ some (strtoul (drop (length length_key) r.buffer ++ beyond))
unfolding header_length
header_length-some beyond r n v l m = rw (l, header_length, m)

-- The header line sets the length, whatever stands behind the valid bytes.
header_length-header :
    (beyond : Bytes) (r : Reader) (n : ℕ) (b : Bytes)
    → n < 2 ^ 64
    → r.buffer ≡ header_text n ++ (newline ∷ b)
    → header_length beyond r (suc (length (header_text n))) none ≡ some n
header_length-header beyond r n b h e =
    let text : take (suc (length (header_text n))) r.buffer ≡ header_text n ++ (newline ∷ []) =
      ap (take (suc (length (header_text n)))) e ∙ take_line (header_text n) b in
    let key : match_key length_key (take (suc (length (header_text n))) r.buffer)
        ≡ some (32 ∷ (decimal n ++ (13 ∷ newline ∷ []))) =
      ap (match_key length_key) (text ∙ header_text-line n []) ∙ match_key-text _ in
    let value : drop (length length_key) r.buffer ++ beyond
        ≡ 32 ∷ (decimal n ++ (13 ∷ newline ∷ (b ++ beyond))) =
      ap (λ x. drop (length length_key) x ++ beyond) (e ∙ header_text-line n b)
      ∙ ap (◌∷◌ 32) (append_assoc (decimal n) (13 ∷ newline ∷ b) beyond) in
    header_length-some beyond r (suc (length (header_text n))) _ (header_text-long n) key
    ∙ ap some (ap strtoul value ∙ strtoul-decimal n (13 ∷ newline ∷ (b ++ beyond)) h refl)

not_blank : (n : ℕ) → is_blank_line (header_text n ++ (newline ∷ [])) ≡ false
unfolding header_text is_blank_line
not_blank n = refl

next_content_length-body :
    (beyond : Bytes) (r r' : Reader) (n : ℕ)
    → headers (rounds r) beyond r none false ≡ (r', some (some n))
    → next_content_length beyond r ≡ take_body n r'
unfolding next_content_length
next_content_length-body beyond r r' n e =
    let seen : (headers (rounds r) beyond r none false).1 ≡ some (some n) = ap (λ t. t.1) e in
    let on : (headers (rounds r) beyond r none false).0 ≡ r' = ap (λ t. t.0) e in
    rw (seen, next_content_length, on)

rounds-two : (r : Reader) (k : ℕ) → suc k ≤ length (stream r) → rounds r ≡ suc (suc (rounds r - 2))
rounds-two r k h = omega arith

-- A frame of either writer, at the front of what is still to come to a reader before the end of its
-- input, is read back whole and exactly what follows it is left, however the input is divided into
-- reads that are not empty and whatever memory holds behind them. The body has at least one byte
-- and at most 16 MiB.
pub next_content_length-write_frame :
    (beyond : Bytes) (r : Reader) (body rest : Bytes)
    → IsReady r
    → stream r ≡ write_frame body ++ rest
    → 0 < length body
    → length body ≤ max_message
    → Returns r.framing body rest (next_content_length beyond r)
next_content_length-write_frame beyond r body rest v s lo hi =
    let n = length body in
    let st = s ∙ write_frame-header body rest in
    let some_bytes =
      ap length st ∙ length-append (header_text n) (newline ∷ 13 ∷ newline ∷ (body ++ rest)) in
    let fuel : rounds r ≡ suc (suc (rounds r - 2)) = rounds-two r 0 (omega (arith, some_bytes)) in
    let h : Headed r n (body ++ rest) (headers (rounds r) beyond r none false) =
      subst (λ f. Headed r n (body ++ rest) (headers f beyond r none false)) (sym fuel)
        (headers_lem (rounds r - 2) beyond r (header_text n) (body ++ rest) n v st
          (NoNewline-Plain (header_text n) (header_text-Plain n))
          (omega (arith, length-header_text n (omega arith))) (not_blank n)
          (λ r' b. header_length-header beyond r' n b (omega arith))) in
    let out = headers (rounds r) beyond r none false in
    subst (Returns r.framing body rest)
      (sym (next_content_length-body beyond r out.0 n (ap (λ x. (out.0, x)) h.seen)))
      (subst (λ style. Returns style body rest (take_body n out.0)) h.style
        (take_body_lem out.0 body rest h.ready h.left lo hi))
