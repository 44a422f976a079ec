-- ===== src/Framing/Frames/Rounds.antt =====
-- adapter/stdio_framing.c: one round of `detect`, by what it finds.
use displayxr_mcp.Prelude.{
  ℕ, suc, ◌≤◌, ◌≡◌, sym, ap, ◌∙◌, Bool, true, false, none, some, ◌⊎◌, [], ◌∷◌, ◌++◌, length, Bytes,
  arith,
}
use displayxr_mcp.Framing.{Style, ndjson, Reader, concat, stream, fill, trim_left}
use displayxr_mcp.Framing.Ready.{IsReady}
use displayxr_mcp.Framing.Frames.{skip_mark, decide, detect_end, detect}
use displayxr_mcp.Framing.Frames.Decide.{
  classify, trim_left-append, trim_left-front, trim_left-kept, IsPartialKey,
}

-- A detection as it should be: the framing is that of the stream, which is kept from its first byte
-- that is no white space, and the reader stays ready while there is more.
pub record Detects (s : Bytes) (out : Reader × Bool) : Type 0 where
  pub found : out.1 ≡ true
  pub kept : stream out.0 ≡ s
  pub style : out.0.framing ≡ classify s
  pub ready : IsReady out.0 ⊎ IsPartialKey s

-- The reader behind the white space.
abbrev pub skipped : Reader → Reader
skipped r = record r { buffer = trim_left r.buffer }

pub detect-decided :
    (fuel : ℕ) (r : Reader) (style : Style)
    → skip_mark (trim_left r.buffer) ≡ none
    → decide (trim_left r.buffer) ≡ some style
    → detect (suc fuel) r ≡ (record (skipped r) { framing = style }, true)
unfolding detect
detect-decided fuel r style m d = rw (m, detect, d)

pub detect-more :
    (fuel : ℕ) (r r' : Reader)
    → skip_mark (trim_left r.buffer) ≡ none
    → decide (trim_left r.buffer) ≡ none
    → fill (skipped r) ≡ (r', true)
    → detect (suc fuel) r ≡ detect fuel r'
unfolding detect
detect-more fuel r r' m d f =
    let left : (fill (skipped r)).0 ≡ r' = ap (λ p. p.0) f in
    let more : (fill (skipped r)).1 ≡ true = ap (λ p. p.1) f in
    rw (m, detect, d, more) (ap (detect fuel) left)

pub detect-ended :
    (fuel : ℕ) (r r' : Reader)
    → skip_mark (trim_left r.buffer) ≡ none
    → decide (trim_left r.buffer) ≡ none
    → fill (skipped r) ≡ (r', false)
    → detect (suc fuel) r ≡ detect_end r'
unfolding detect
detect-ended fuel r r' m d f =
    let left : (fill (skipped r)).0 ≡ r' = ap (λ p. p.0) f in
    let more : (fill (skipped r)).1 ≡ false = ap (λ p. p.1) f in
    rw (m, detect, d, more) (ap detect_end left)

pub detect_end-rest :
    (r : Reader) (c : ℕ) (cs : Bytes)
    → r.buffer ≡ c ∷ cs
    → detect_end r ≡ (record r { framing = ndjson }, true)
unfolding detect_end
detect_end-rest r c cs e = rw e

pub trim_left-shorter : (a : Bytes) → length (trim_left a) ≤ length a
unfolding trim_left
trim_left-shorter [] = omega arith
trim_left-shorter (c ∷ cs) = ground (arith, trim_left-shorter cs)

pub skipped-IsReady : (r : Reader) → IsReady r → IsReady (skipped r)
skipped-IsReady r v = record {
  more = v.more;
  fits = omega (arith, trim_left-shorter r.buffer, v.fits);
  sized = v.sized;
  chunks = v.chunks;
}

-- The stream behind the white space of the buffer, where the buffer has more.
pub stream-skipped :
    (r : Reader) (d : ℕ) (ds : Bytes)
    → trim_left r.buffer ≡ d ∷ ds
    → trim_left (stream r) ≡ (d ∷ ds) ++ concat r.source
stream-skipped r d ds t =
    sym (trim_left-append r.buffer (concat r.source))
    ∙ ap (λ b. trim_left (b ++ concat r.source)) t
    ∙ trim_left-kept d (ds ++ concat r.source) (trim_left-front r.buffer d ds t)
