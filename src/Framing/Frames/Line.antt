-- ===== src/Framing/Frames/Line.antt =====
-- adapter/stdio_framing.c: the buffer is filled up to a body or up to the end of a header line.
use displayxr_mcp.Prelude.{
  ℕ, zero, suc, ◌≤◌, ◌<◌, ◌≡◌, refl, sym, ap, ◌∙◌, subst, Bool, true, false, Option, none, some,
  inl, inr, [], ◌∷◌, ◌++◌, length, length-append, take, drop, length-drop, ltb, ◌==◌, ◌||◌, Bytes,
  arith, Bool-cases,
}
use displayxr_mcp.Wire.{newline}
use displayxr_mcp.Framing.{Reader, concat, stream, rounds, fill, max_message, index_newline}
use displayxr_mcp.Framing.Fill.{fill_lem}
use displayxr_mcp.Framing.Ready.{IsReady, Filled, Returns}
use displayxr_mcp.Framing.Ndjson.{
  NoNewline, split_line, index_newline-line, index_newline-NoNewline,
}
use displayxr_mcp.Framing.Frames.{header_line, fill_to, take_body}

-- A reader that went on: it is ready, and nothing of the stream is lost.
pub record GoesOn (r r' : Reader) : Type 0 where
  pub ready : IsReady r'
  pub same : stream r' ≡ stream r
  pub style : r'.framing ≡ r.framing

GoesOn-refl : (r : Reader) → IsReady r → GoesOn r r
GoesOn-refl r v = record { ready = v; same = refl; style = refl }

GoesOn-Filled : (r r' r'' : Reader) → Filled r r' → GoesOn r' r'' → GoesOn r r''
GoesOn-Filled r r' r'' f g = record {
  ready = g.ready;
  same = g.same ∙ f.same;
  style = g.style ∙ f.style;
}

-- `fill_to` brings `n` bytes of the stream into the buffer.
abbrev Brings : ℕ → Reader → Reader × Bool → Type 0
Brings n r out = (out.1 ≡ true) × (n ≤ length out.0.buffer) × GoesOn r out.0

fill_to-enough :
    (fuel n : ℕ) (r : Reader) → ltb (length r.buffer) n ≡ false → fill_to (suc fuel) n r ≡ (r, true)
unfolding fill_to
fill_to-enough fuel n r e = rw (e, fill_to)

fill_to-more :
    (fuel n : ℕ) (r r' : Reader)
    → ltb (length r.buffer) n ≡ true
    → fill r ≡ (r', true)
    → fill_to (suc fuel) n r ≡ fill_to fuel n r'
unfolding fill_to
fill_to-more fuel n r r' e f =
    let ok : (fill r).1 ≡ true = ap (λ t. t.1) f in
    let filled : (fill r).0 ≡ r' = ap (λ t. t.0) f in rw (e, fill_to, ok, filled)

fill_to_lem :
    (fuel n : ℕ) (r : Reader)
    → IsReady r
    → n ≤ length (stream r)
    → n ≤ max_message
    → length (concat r.source) < fuel
    → Brings n r (fill_to fuel n r)
fill_to_lem zero n r v l m f = absurd (omega arith)
fill_to_lem (suc fuel) n r v l m f = elim (Bool-cases (ltb (length r.buffer) n)) [
  | inr enough ↦
      subst (Brings n r) (sym (fill_to-enough fuel n r enough))
        (refl, ground arith, GoesOn-refl r v)
  | inl short ↦
      let total = length-append r.buffer (concat r.source) in
      let few : length r.buffer < n = ground arith in
      let filled = fill_lem r v (omega arith) (omega arith) in
      let more =
        fill_to_lem fuel n filled.0 filled.2.ready (omega (arith, ap length filled.2.same)) m
          (omega (arith, filled.2.shorter)) in
      subst (Brings n r) (sym (fill_to-more fuel n r filled.0 short filled.1))
        (more.0, more.1, GoesOn-Filled r filled.0 _ filled.2 more.2)
]

-- The buffer holds at least a prefix of the stream.
pub prefix-take :
    (buffer cs body rest : Bytes)
    → buffer ++ cs ≡ body ++ rest
    → length body ≤ length buffer
    → (take (length body) buffer ≡ body) × (drop (length body) buffer ++ cs ≡ rest)
prefix-take buffer cs [] rest e l = (refl, e)
prefix-take [] cs (x ∷ body) rest e l = absurd (omega arith)
prefix-take (y ∷ b) cs (x ∷ body) rest e l =
    let head : y ≡ x = ground arith in
    let tail : b ++ cs ≡ body ++ rest = ground arith in
    let more = prefix-take b cs body rest tail (omega arith) in (ground (arith, more.0), more.1)

take_body-filled :
    (n : ℕ) (r r' : Reader)
    → ((n == 0) || ltb max_message n) ≡ false
    → fill_to (rounds r) n r ≡ (r', true)
    → take_body n r ≡ (record r' { buffer = drop n r'.buffer }, some (take n r'.buffer))
unfolding take_body
take_body-filled n r r' e f =
    let ok : (fill_to (rounds r) n r).1 ≡ true = ap (λ t. t.1) f in
    let filled : (fill_to (rounds r) n r).0 ≡ r' = ap (λ t. t.0) f in rw (e, take_body, ok, filled)

pub take_body_lem :
    (r : Reader) (body rest : Bytes)
    → IsReady r
    → stream r ≡ body ++ rest
    → 0 < length body
    → length body ≤ max_message
    → Returns r.framing body rest (take_body (length body) r)
take_body_lem r body rest v s lo hi =
    let size = length-append body rest in
    let all = length-append r.buffer (concat r.source) in
    let total : length (stream r) ≡ length (body ++ rest) = ap length s in
    let out = fill_to (rounds r) (length body) r in
    let b = fill_to_lem (rounds r) (length body) r v (omega arith) hi (omega arith) in
    let g = b.2 in
    let ready = g.ready in
    let t = prefix-take out.0.buffer (concat out.0.source) body rest (g.same ∙ s) b.1 in
    let test : ((length body == 0) || ltb max_message (length body)) ≡ false = ground arith in
    let pair : out ≡ (out.0, true) = ap (λ x. (out.0, x)) b.0 in
    subst (Returns r.framing body rest) (sym (take_body-filled (length body) r out.0 test pair))
      (record {
        message_is = ap some t.0;
        ready = record {
          more = ready.more;
          fits = omega (arith, ready.fits, length-drop (length body) out.0.buffer);
          sized = ready.sized;
          chunks = ready.chunks;
        };
        left = t.1;
        style_is = g.style;
      })

-- A line in the buffer with its newline.
abbrev HasLine : Bytes → Reader → Reader × Option ℕ → Type 0
HasLine line r out =
    (out.1 ≡ some (length line))
    × ((b : Bytes) × (out.0.buffer ≡ line ++ (newline ∷ b)) × GoesOn r out.0)

header_line-found :
    (fuel i : ℕ) (r : Reader)
    → index_newline r.buffer ≡ some i
    → header_line (suc fuel) r ≡ (r, some i)
unfolding header_line
header_line-found fuel i r e = rw (e, header_line)

header_line-more :
    (fuel : ℕ) (r r' : Reader)
    → index_newline r.buffer ≡ none
    → ltb 1024 (length r.buffer) ≡ false
    → fill r ≡ (r', true)
    → header_line (suc fuel) r ≡ header_line fuel r'
unfolding header_line
header_line-more fuel r r' e l f =
    let ok : (fill r).1 ≡ true = ap (λ t. t.1) f in
    let filled : (fill r).0 ≡ r' = ap (λ t. t.0) f in rw (e, header_line, l, ok, filled)

pub header_line_lem :
    (fuel : ℕ) (r : Reader) (line rest : Bytes)
    → IsReady r
    → stream r ≡ line ++ (newline ∷ rest)
    → NoNewline line
    → length line ≤ 1024
    → length (concat r.source) < fuel
    → HasLine line r (header_line fuel r)
header_line_lem zero r line rest v s n l f = absurd (omega arith)
header_line_lem (suc fuel) r line rest v s n l f =
    elim (split_line line r.buffer (concat r.source) rest s) [
      | inl (b, p, q) ↦
          subst (HasLine line r)
            (sym (
              header_line-found fuel (length line) r
                (ap index_newline p ∙ index_newline-line line b n)))
            (refl, (b, p, GoesOn-refl r v))
      | inr (k, p) ↦
          let size = length-append r.buffer (concat r.source) in
          let size' = length-append line (newline ∷ rest) in
          let size'' = length-append r.buffer k in
          let fits : length line ≡ length (r.buffer ++ k) = ap length p in
          let total : length (r.buffer ++ concat r.source) ≡ length (line ++ (newline ∷ rest)) =
            ap length s in
          let none_yet = index_newline-NoNewline r.buffer k (subst NoNewline p n) in
          let short : ltb 1024 (length r.buffer) ≡ false = ground arith in
          let filled = fill_lem r v (omega arith) (omega arith) in
          let more =
            header_line_lem fuel filled.0 line rest filled.2.ready (filled.2.same ∙ s) n l
              (omega (arith, filled.2.shorter)) in
          subst (HasLine line r) (sym (header_line-more fuel r filled.0 none_yet short filled.1))
            (more.0, (more.1.0, more.1.1, GoesOn-Filled r filled.0 _ filled.2 more.1.2))
    ]
