-- ===== src/Framing/Ndjson.antt =====
-- adapter/stdio_framing.c: `next_ndjson` takes the next line off the input, however the input comes.
use displayxr_mcp.Prelude.{
  ℕ, zero, suc, ◌≤◌, ◌<◌, ◌≡◌, ◌≢◌, refl, sym, ap, ◌∙◌, subst, true, false, none, some, [], ◌∷◌,
  ◌++◌, length, length-append, take, drop, take-append_length, length-drop, ltb, Bytes, arith, inl,
  inr, ◌⊎◌,
}
use displayxr_mcp.Wire.{newline}
use displayxr_mcp.Framing.Fill.{fill_lem}
use displayxr_mcp.Framing.Ready.{IsReady, Returns}
use displayxr_mcp.Framing.{
  rounds, concat, stream, Reader, fill, trim, trim_left, trim_right, index_newline, search_newline,
  next_ndjson, max_message,
}

abbrev pub NoNewline : Bytes → Type 0
NoNewline [] = Unit {0}
NoNewline (c ∷ cs) = (c ≢ newline) × NoNewline cs

-- The buffer ends before the newline, or behind it.
pub split_line :
    (line buffer cs rest : Bytes)
    → buffer ++ cs ≡ line ++ (newline ∷ rest)
    → ((b : Bytes) × (buffer ≡ line ++ (newline ∷ b)) × (b ++ cs ≡ rest))
      ⊎ ((l : Bytes) × (line ≡ buffer ++ l))
split_line line [] cs rest e = inr (line, refl)
split_line [] (y ∷ b) cs rest e = inl (b, ground arith, ground arith)
split_line (x ∷ line) (y ∷ b) cs rest e =
    let head : y ≡ x = ground arith in
    let tail : b ++ cs ≡ line ++ (newline ∷ rest) = ground arith in
    elim (split_line line b cs rest tail) [
      | inl (b', p, q) ↦ inl (b', ground arith, q)
      | inr (l, p) ↦ inr (l, ground arith)
    ]

pub index_newline-line :
    (line b : Bytes) → NoNewline line → index_newline (line ++ (newline ∷ b)) ≡ some (length line)
unfolding index_newline
index_newline-line [] b h = refl
index_newline-line (c ∷ cs) b h = ground (arith, index_newline-line cs b h.1)

pub index_newline-NoNewline :
    (buffer l : Bytes) → NoNewline (buffer ++ l) → index_newline buffer ≡ none
unfolding index_newline
index_newline-NoNewline [] l h = refl
index_newline-NoNewline (c ∷ cs) l h = ground (arith, index_newline-NoNewline cs l h.1)

search_newline-line :
    (scan : ℕ) (line b : Bytes)
    → NoNewline line
    → scan ≤ length line
    → search_newline scan (line ++ (newline ∷ b)) ≡ some (length line)
unfolding search_newline index_newline
search_newline-line zero line b h l = ground (arith, index_newline-line line b h)
search_newline-line (suc scan) [] b h l = absurd (omega arith)
search_newline-line (suc scan) (c ∷ cs) b h l =
    ground (arith, search_newline-line scan cs b h.1 (omega arith))

search_newline-NoNewline :
    (scan : ℕ) (buffer l : Bytes) → NoNewline (buffer ++ l) → search_newline scan buffer ≡ none
unfolding search_newline index_newline
search_newline-NoNewline zero [] l h = refl
search_newline-NoNewline (suc scan) [] l h = refl
search_newline-NoNewline zero (c ∷ cs) l h = ground (arith, search_newline-NoNewline 0 cs l h.1)
search_newline-NoNewline (suc scan) (c ∷ cs) l h =
    ground (arith, search_newline-NoNewline scan cs l h.1)

take-line : (line b : Bytes) → take (length line) (line ++ (newline ∷ b)) ≡ line
take-line line b = take-append_length line (newline ∷ b)

drop-line : (line b : Bytes) → drop (suc (length line)) (line ++ (newline ∷ b)) ≡ b
drop-line [] b = refl
drop-line (c ∷ cs) b = drop-line cs b

length-trim_left : (s : Bytes) → length (trim_left s) ≤ length s
unfolding trim_left
length-trim_left [] = omega arith
length-trim_left (c ∷ cs) = ground (arith, length-trim_left cs)

length-trim_right : (s : Bytes) → length (trim_right s) ≤ length s
unfolding trim_right
length-trim_right [] = omega arith
length-trim_right (c ∷ cs) = ground (arith, length-trim_right cs)

length-trim : (s : Bytes) → length (trim s) ≤ length s
unfolding trim
length-trim s = omega (arith, length-trim_left s, length-trim_right (trim_left s))

next_ndjson-found :
    (fuel : ℕ) (r : Reader) (scan i : ℕ) (c : ℕ) (cs : Bytes)
    → search_newline scan r.buffer ≡ some i
    → trim (take i r.buffer) ≡ c ∷ cs
    → ltb max_message (length (c ∷ cs)) ≡ false
    → next_ndjson (suc fuel) r scan ≡ (record r { buffer = drop (suc i) r.buffer }, some (c ∷ cs))
unfolding next_ndjson
next_ndjson-found fuel r scan i c cs e f l = rw (e, next_ndjson, f, l)

next_ndjson-more :
    (fuel : ℕ) (r r' : Reader) (scan : ℕ)
    → search_newline scan r.buffer ≡ none
    → fill r ≡ (r', true)
    → next_ndjson (suc fuel) r scan ≡ next_ndjson fuel r' (length r.buffer)
unfolding next_ndjson
next_ndjson-more fuel r r' scan e f =
    let ok : (fill r).1 ≡ true = ap (λ t. t.1) f in
    let filled : (fill r).0 ≡ r' = ap (λ t. t.0) f in rw (e, next_ndjson, ok, filled)

line_found :
    (fuel : ℕ) (r : Reader) (scan : ℕ) (line b rest t : Bytes)
    → trim line ≡ t
    → IsReady r
    → r.buffer ≡ line ++ (newline ∷ b)
    → b ++ concat r.source ≡ rest
    → NoNewline line
    → scan ≤ length line
    → length line < max_message
    → t ≢ []
    → Returns r.framing (trim line) rest (next_ndjson (suc fuel) r scan)
line_found fuel r scan line b rest [] e v p q n s l t = absurd (t refl)
line_found fuel r scan line b rest (c ∷ cs) e v p q n s l t =
    let found : search_newline scan r.buffer ≡ some (length line) =
      ap (search_newline scan) p ∙ search_newline-line scan line b n s in
    let whole : trim (take (length line) r.buffer) ≡ c ∷ cs =
      ap (λ x. trim (take (length line) x)) p ∙ ap trim (take-line line b) ∙ e in
    let small : ltb max_message (length (c ∷ cs)) ≡ false =
      ground (arith, length-trim line, ap length e) in
    let after : drop (suc (length line)) r.buffer ≡ b =
      ap (drop (suc (length line))) p ∙ drop-line line b in
    let out : next_ndjson (suc fuel) r scan
        ≡ (record r { buffer = drop (suc (length line)) r.buffer }, some (c ∷ cs)) =
      next_ndjson-found fuel r scan (length line) c cs found whole small in
    subst (Returns r.framing (trim line) rest) (sym out) (record {
      message_is = ap some (sym e);
      ready = record {
        more = v.more;
        fits = omega (arith, v.fits, length-drop (suc (length line)) r.buffer);
        sized = v.sized;
        chunks = v.chunks;
      };
      left = ap (λ x. x ++ concat r.source) after ∙ q;
      style_is = refl;
    })

next_ndjson-scan :
    (fuel : ℕ) (r : Reader) (scan : ℕ) (line rest : Bytes)
    → IsReady r
    → stream r ≡ line ++ (newline ∷ rest)
    → NoNewline line
    → scan ≤ length line
    → length line < max_message
    → trim line ≢ []
    → length (concat r.source) < fuel
    → Returns r.framing (trim line) rest (next_ndjson fuel r scan)
next_ndjson-scan zero r scan line rest v st n s l t f = absurd (omega arith)
next_ndjson-scan (suc fuel) r scan line rest v st n s l t f =
    elim (split_line line r.buffer (concat r.source) rest st) [
      | inl (b, p, q) ↦ line_found fuel r scan line b rest (trim line) refl v p q n s l t
      | inr (k, p) ↦
          let none_yet : search_newline scan r.buffer ≡ none =
            search_newline-NoNewline scan r.buffer k (subst NoNewline p n) in
          let size = length-append r.buffer (concat r.source) in
          let size' = length-append line (newline ∷ rest) in
          let size'' = length-append r.buffer k in
          let fits : length line ≡ length (r.buffer ++ k) = ap length p in
          let total : length (r.buffer ++ concat r.source) ≡ length (line ++ (newline ∷ rest)) =
            ap length st in
          let filled = fill_lem r v (omega arith) (omega arith) in
          subst (Returns r.framing (trim line) rest)
            (sym (next_ndjson-more fuel r filled.0 scan none_yet filled.1))
            (subst
              (λ style.
                Returns style (trim line) rest (next_ndjson fuel filled.0 (length r.buffer)))
              filled.2.style
              (next_ndjson-scan fuel filled.0 (length r.buffer) line rest filled.2.ready
                (filled.2.same ∙ st) n (omega arith) l t (omega (arith, filled.2.shorter))))
    ]

-- If what is still to come to a reader before the end of its input begins with a line that is not
-- blank and shorter than the limit of 16 MiB, then the reader returns that line without the white
-- space around it, and leaves exactly what follows its newline, however the input is divided into
-- reads that are not empty. One round per byte of the source, and one more, are enough for it.
pub next_ndjson_lem :
    (r : Reader) (line rest : Bytes)
    → IsReady r
    → stream r ≡ line ++ (newline ∷ rest)
    → NoNewline line
    → length line < max_message
    → trim line ≢ []
    → Returns r.framing (trim line) rest (next_ndjson (rounds r) r 0)
next_ndjson_lem r line rest v st n l t =
    next_ndjson-scan (rounds r) r 0 line rest v st n (omega arith) l t (omega arith)
