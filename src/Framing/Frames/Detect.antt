-- ===== src/Framing/Frames/Detect.antt =====
-- adapter/stdio_framing.c: `detect` finds the framing, however the input is divided.
use displayxr_mcp.Prelude.{
  ℕ, zero, suc, ◌≤◌, ◌<◌, ◌≡◌, ◌≢◌, refl, sym, ap, ◌∙◌, subst, none, some, inl, inr, [], ◌∷◌, ◌++◌,
  length, append-nil, Bytes, arith,
}
use displayxr_mcp.Framing.{Style, ndjson, Reader, concat, stream, rounds, max_message, trim_left}
use displayxr_mcp.Framing.Fill.{fill_lem, fill-end, concat_cases}
use displayxr_mcp.Framing.Ready.{IsReady}
use displayxr_mcp.Framing.Frames.{skip_mark, decide, detect}
use displayxr_mcp.Framing.Frames.Decide.{
  classify, head_or, nil_or_cons, trim_left-append, skip_mark-other, IsPartialKey, decide_cases,
}
use displayxr_mcp.Framing.Frames.Rounds.{
  Detects, skipped, detect-decided, detect-more, detect-ended, detect_end-rest, trim_left-shorter,
  skipped-IsReady, stream-skipped,
}

-- One more read of the input: the loop of `detect` goes on with it.
detect-step :
    (fuel : ℕ) (r : Reader) (s : Bytes)
    → ((r' : Reader)
        → IsReady r'
        → trim_left (stream r') ≡ s
        → length (concat r'.source) < fuel
        → Detects s (detect fuel r'))
    → IsReady r
    → skip_mark (trim_left r.buffer) ≡ none
    → decide (trim_left r.buffer) ≡ none
    → length (trim_left r.buffer) < max_message
    → 0 < length (concat r.source)
    → trim_left (stream r) ≡ s
    → length (concat r.source) < suc fuel
    → Detects s (detect (suc fuel) r)
detect-step fuel r s next v m d l p e f =
    let (r', filled, taken) = fill_lem (skipped r) (skipped-IsReady r v) l p in
    subst (Detects s) (sym (detect-more fuel r r' m d filled)) (
      next r' taken.ready
        (ap trim_left taken.same ∙ trim_left-append r.buffer (concat r.source) ∙ e)
        (omega (arith, taken.shorter)))

-- The input ended within a part of the key: what there is is a line.
detect-fragment :
    (fuel : ℕ) (r : Reader) (d : ℕ) (ds : Bytes)
    → IsReady r
    → trim_left r.buffer ≡ d ∷ ds
    → skip_mark (trim_left r.buffer) ≡ none
    → decide (trim_left r.buffer) ≡ none
    → classify (d ∷ ds) ≡ ndjson
    → IsPartialKey (d ∷ ds)
    → r.source ≡ []
    → Detects (d ∷ ds) (detect (suc fuel) r)
detect-fragment fuel r d ds v t m n k l e =
    let short : length (trim_left r.buffer) < max_message = omega (arith, ap length t, l.0) in
    let (r', failed, ended) = fill-end (skipped r) (skipped-IsReady r v) short e in
    let out = detect-ended fuel r r' m n failed ∙ detect_end-rest r' d ds (ended.same ∙ t) in
    subst (Detects (d ∷ ds)) (sym out) (record {
      found = refl;
      kept = ap (λ s. r'.buffer ++ concat s) ended.empty ∙ append-nil r'.buffer ∙ ended.same ∙ t;
      style = sym k;
      ready = inr l;
    })

-- The bytes in the buffer decide.
detect-now :
    (fuel : ℕ) (r : Reader) (d : ℕ) (ds s : Bytes) (style : Style)
    → IsReady r
    → trim_left r.buffer ≡ d ∷ ds
    → skip_mark (trim_left r.buffer) ≡ none
    → decide (trim_left r.buffer) ≡ some style
    → classify ((d ∷ ds) ++ concat r.source) ≡ style
    → trim_left (stream r) ≡ s
    → Detects s (detect (suc fuel) r)
detect-now fuel r d ds s style v t m k c e =
    let whole : (d ∷ ds) ++ concat r.source ≡ s = sym (stream-skipped r d ds t) ∙ e in
    let ready = skipped-IsReady r v in
    subst (Detects s) (sym (detect-decided fuel r style m k)) (record {
      found = refl;
      kept = ap (λ b. b ++ concat r.source) t ∙ whole;
      style = sym c ∙ ap classify whole;
      ready = inl (record {
        more = ready.more;
        fits = ready.fits;
        sized = ready.sized;
        chunks = ready.chunks;
      });
    })

detect-bytes :
    (fuel : ℕ) (r : Reader) (d : ℕ) (ds : Bytes) (c : ℕ) (cs : Bytes)
    → ((r' : Reader)
        → IsReady r'
        → trim_left (stream r') ≡ c ∷ cs
        → length (concat r'.source) < fuel
        → Detects (c ∷ cs) (detect fuel r'))
    → IsReady r
    → trim_left r.buffer ≡ d ∷ ds
    → trim_left (stream r) ≡ c ∷ cs
    → c ≢ 0xef
    → length (concat r.source) < suc fuel
    → Detects (c ∷ cs) (detect (suc fuel) r)
unfolding head_or
detect-bytes fuel r d ds c cs next v t e m f =
    let whole : (d ∷ ds) ++ concat r.source ≡ c ∷ cs = sym (stream-skipped r d ds t) ∙ e in
    let first : d ≢ 0xef = λ h. m (sym (ap (head_or 0) whole) ∙ h) in
    let unmarked = subst (λ s. skip_mark s ≡ none) (sym t) (skip_mark-other d ds first) in
    elim (decide_cases d ds first) [
      | inl (style, k, same) ↦
          detect-now fuel r d ds (c ∷ cs) style v t unmarked (ap decide t ∙ k)
            (same (concat r.source)) e
      | inr (k, line, short) ↦ elim (concat_cases r.source v.chunks) [
        | inr more ↦
            detect-step fuel r (c ∷ cs) next v unmarked (ap decide t ∙ k)
              (omega (arith, ap length t, short.0)) more e f
        | inl ended ↦
            let all : d ∷ ds ≡ c ∷ cs =
              sym (append-nil (d ∷ ds)) ∙ ap (λ s. (d ∷ ds) ++ concat s) (sym ended) ∙ whole in
            subst (λ s. Detects s (detect (suc fuel) r)) all
              (detect-fragment fuel r d ds v t unmarked (ap decide t ∙ k) line short ended)
      ]
    ]

detect-blank :
    (fuel : ℕ) (r : Reader) (c : ℕ) (cs : Bytes)
    → ((r' : Reader)
        → IsReady r'
        → trim_left (stream r') ≡ c ∷ cs
        → length (concat r'.source) < fuel
        → Detects (c ∷ cs) (detect fuel r'))
    → IsReady r
    → trim_left r.buffer ≡ []
    → trim_left (stream r) ≡ c ∷ cs
    → length (concat r.source) < suc fuel
    → Detects (c ∷ cs) (detect (suc fuel) r)
unfolding skip_mark decide
detect-blank fuel r c cs next v t e f =
    let rest : trim_left (concat r.source) ≡ c ∷ cs =
      sym (ap (λ b. trim_left (b ++ concat r.source)) t)
      ∙ trim_left-append r.buffer (concat r.source)
      ∙ e in
    elim (concat_cases r.source v.chunks) [
      | inr more ↦
          detect-step fuel r (c ∷ cs) next v (ap skip_mark t) (ap decide t)
            (omega (arith, ap length t)) more e f
      | inl ended ↦
          let none_left : length (trim_left (concat r.source)) ≤ length (concat r.source) =
            trim_left-shorter (concat r.source) in
          absurd (omega (arith, ap length rest, none_left, ap (λ s. length (concat s)) ended))
    ]

detect-run :
    (fuel : ℕ) (r : Reader) (c : ℕ) (cs : Bytes)
    → c ≢ 0xef
    → IsReady r
    → trim_left (stream r) ≡ c ∷ cs
    → length (concat r.source) < fuel
    → Detects (c ∷ cs) (detect fuel r)
detect-run zero r c cs m v e f = absurd (omega arith)
detect-run (suc fuel) r c cs m v e f =
    let next =
      λ (r' : Reader) (w : IsReady r') (h : trim_left (stream r') ≡ c ∷ cs)
          (g : length (concat r'.source) < fuel).
        detect-run fuel r' c cs m w h g in
    elim (nil_or_cons (trim_left r.buffer)) [
      | inl blank ↦ detect-blank fuel r c cs next v blank e f
      | inr (d, ds, t) ↦ detect-bytes fuel r d ds c cs next v t e m f
    ]

-- A reader before the end of its input finds the framing of what is still to come, however the
-- input is divided into reads that are not empty: Content-Length if the first bytes behind the white
-- space are the key, lines otherwise. Only that white space is taken off, and the reader stays
-- ready, unless the whole input is a part of the key. The input is not blank, and its first byte is
-- not that of a byte order mark.
pub detect_lem :
    (r : Reader) (c : ℕ) (cs : Bytes)
    → IsReady r
    → trim_left (stream r) ≡ c ∷ cs
    → c ≢ 0xef
    → Detects (c ∷ cs) (detect (rounds r) r)
detect_lem r c cs v e m = detect-run (rounds r) r c cs m v e (omega arith)
