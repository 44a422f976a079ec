-- ===== src/Framing/Frames/Decide.antt =====
-- adapter/stdio_framing.c: what the bytes in the buffer decide of the framing.
use displayxr_mcp.Prelude.{
  ℕ, ◌≤◌, ◌<◌, ◌≡◌, ◌≢◌, refl, true, false, none, some, inl, inr, ◌⊎◌, [], ◌∷◌, ◌++◌, length, leb,
  Bytes, arith, Bool-cases,
}
use displayxr_mcp.Wire.{match_key, length_key, lower}
use displayxr_mcp.Framing.{Style, ndjson, content_length, trim_left, is_ws}
use displayxr_mcp.Framing.Frames.{skip_mark, is_partial_mark, prefix_match, decide}

-- The framing that the bytes of a message have: a key at the front, or none.
unfoldable pub classify : Bytes → Style
classify s = elim (match_key length_key s) [ none ↦ ndjson | some v ↦ content_length ]

-- The first byte.
unfoldable pub head_or : ℕ → Bytes → ℕ
head_or d [] = d
head_or d (c ∷ cs) = c

pub nil_or_cons : (s : Bytes) → (s ≡ []) ⊎ ((c : ℕ) × (cs : Bytes) × (s ≡ c ∷ cs))
nil_or_cons [] = inl refl
nil_or_cons (c ∷ cs) = inr (c, cs, refl)

pub trim_left-append : (a b : Bytes) → trim_left (trim_left a ++ b) ≡ trim_left (a ++ b)
unfolding trim_left
trim_left-append [] b = refl
trim_left-append (c ∷ cs) b = ground (arith, trim_left-append cs b)

-- What is trimmed begins with no white space.
pub trim_left-front : (a : Bytes) (c : ℕ) (cs : Bytes) → trim_left a ≡ c ∷ cs → is_ws c ≡ false
unfolding trim_left
trim_left-front [] c cs e = cc
trim_left-front (x ∷ xs) c cs e = ground (arith, trim_left-front xs c cs)

pub trim_left-kept : (c : ℕ) (cs : Bytes) → is_ws c ≡ false → trim_left (c ∷ cs) ≡ c ∷ cs
unfolding trim_left
trim_left-kept c cs w = rw w

prefix_match-fails : (ks s x : Bytes) → prefix_match ks s ≡ false → match_key ks (s ++ x) ≡ none
unfolding prefix_match match_key lower
prefix_match-fails [] s x h = cc
prefix_match-fails (k ∷ ks) [] x h = cc
prefix_match-fails (k ∷ ks) (c ∷ cs) x h = ground (arith, prefix_match-fails ks cs x)

prefix_match-whole :
    (ks s x : Bytes)
    → prefix_match ks s ≡ true
    → length ks ≤ length s
    → (v : Bytes) × (match_key ks (s ++ x) ≡ some v)
unfolding prefix_match match_key lower
prefix_match-whole [] s x h l = (s ++ x, refl)
prefix_match-whole (k ∷ ks) [] x h l = absurd (omega arith)
prefix_match-whole (k ∷ ks) (c ∷ cs) x h l =
    let rest = prefix_match-whole ks cs x (ground arith) (omega arith) in
    (rest.0, ground (arith, rest.1))

prefix_match-short :
    (ks s : Bytes) → prefix_match ks s ≡ true → length s < length ks → match_key ks s ≡ none
unfolding prefix_match match_key lower
prefix_match-short [] s h l = absurd (omega arith)
prefix_match-short (k ∷ ks) [] h l = refl
prefix_match-short (k ∷ ks) (c ∷ cs) h l = ground (arith, prefix_match-short ks cs)

is_partial_mark-other : (c : ℕ) (cs : Bytes) → c ≢ 0xef → is_partial_mark (c ∷ cs) ≡ false
unfolding is_partial_mark
is_partial_mark-other c [] m = ground arith
is_partial_mark-other c (d ∷ []) m = ground arith
is_partial_mark-other c (d ∷ e ∷ cs) m = refl

pub skip_mark-other : (c : ℕ) (cs : Bytes) → c ≢ 0xef → skip_mark (c ∷ cs) ≡ none
unfolding skip_mark
skip_mark-other c [] m = refl
skip_mark-other c (d ∷ []) m = refl
skip_mark-other c (d ∷ e ∷ cs) m = ground arith

decide-mismatch :
    (c : ℕ) (cs : Bytes)
    → c ≢ 0xef
    → prefix_match length_key (c ∷ cs) ≡ false
    → decide (c ∷ cs) ≡ some ndjson
unfolding decide
decide-mismatch c cs m p = rw (is_partial_mark-other c cs m, p)

decide-key :
    (c : ℕ) (cs : Bytes)
    → c ≢ 0xef
    → prefix_match length_key (c ∷ cs) ≡ true
    → leb (length length_key) (length (c ∷ cs)) ≡ true
    → decide (c ∷ cs) ≡ some content_length
unfolding decide
decide-key c cs m p l = rw (is_partial_mark-other c cs m, p, l)

decide-short :
    (c : ℕ) (cs : Bytes)
    → c ≢ 0xef
    → prefix_match length_key (c ∷ cs) ≡ true
    → leb (length length_key) (length (c ∷ cs)) ≡ false
    → decide (c ∷ cs) ≡ none
unfolding decide
decide-short c cs m p l = rw (is_partial_mark-other c cs m, p, l)

-- A part of the key.
abbrev pub IsPartialKey : Bytes → Type 0
IsPartialKey s = (length s < length length_key) × (prefix_match length_key s ≡ true)

-- What the bytes in the buffer decide is what the stream has; they are undecided while they are a
-- part of the key.
pub decide_cases :
    (c : ℕ) (cs : Bytes)
    → c ≢ 0xef
    → ((style : Style) × (decide (c ∷ cs) ≡ some style)
        × ((x : Bytes) → classify ((c ∷ cs) ++ x) ≡ style))
      ⊎ ((decide (c ∷ cs) ≡ none) × (classify (c ∷ cs) ≡ ndjson) × IsPartialKey (c ∷ cs))
unfolding classify
decide_cases c cs m = elim (Bool-cases (prefix_match length_key (c ∷ cs))) [
  | inr other ↦ inl (
    ndjson,
    decide-mismatch c cs m other,
    λ x. rw (classify, prefix_match-fails length_key (c ∷ cs) x other),
  )
  | inl key ↦ elim (Bool-cases (leb (length length_key) (length (c ∷ cs)))) [
    | inl long ↦ inl (
      content_length,
      decide-key c cs m key long,
      λ x. rw (classify, (prefix_match-whole length_key (c ∷ cs) x key (ground arith)).1),
    )
    | inr short ↦ inr (
      decide-short c cs m key short,
      rw (classify, prefix_match-short length_key (c ∷ cs) key (ground arith)),
      (ground arith, key),
    )
  ]
]
