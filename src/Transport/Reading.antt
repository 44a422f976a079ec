-- ===== src/Transport/Reading.antt =====
-- src/mcp_transport.c: `mcp_conn_read` returns the stream's bytes, however they arrive.
use displayxr_mcp.Prelude.{
  ℕ, zero, suc, ◌-◌, ◌≤◌, ◌<◌, ◌≡◌, refl, sym, ap, ◌∙◌, subst, true, false, Option, none, some, inl,
  inr, List, [], ◌∷◌, ◌++◌, length, length-append, take, drop, append_assoc, take-append-drop,
  take-append_length, drop-append_length, length-take, length-drop, ltb, Bytes, arith, Bool-cases,
}
use displayxr_mcp.Wire as Wire
use displayxr_mcp.Transport.{ReadOutcome, arrives, read_interrupted, closed, read_failed, conn_read}

-- The bytes that arrive before the end or an error.
abbrev pub arriving : List ReadOutcome → Bytes
arriving [] = []
arriving (arrives [] ∷ os) = []
arriving (arrives (b ∷ bs) ∷ os) = (b ∷ bs) ++ arriving os
arriving (read_interrupted ∷ os) = arriving os
arriving (closed ∷ os) = []
arriving (read_failed ∷ os) = []

-- A read of `n` bytes as it should be, of what arrives: all of them and the rest is left, or failure
-- where there are not so many.
pub data ReadsExactly (n : ℕ) (s : Bytes) : Option Bytes × List ReadOutcome → Type 0 where
  whole :
      (bytes : Bytes) (os : List ReadOutcome)
      → length bytes ≡ n
      → s ≡ bytes ++ arriving os
      → ReadsExactly n s (some bytes, os)
  short : (os : List ReadOutcome) → length s < n → ReadsExactly n s (none, os)

arriving-arrives :
    (s : Bytes) (os : List ReadOutcome)
    → 0 < length s
    → arriving (arrives s ∷ os) ≡ s ++ arriving os
arriving-arrives [] os h = absurd (omega arith)
arriving-arrives (b ∷ bs) os h = refl

-- The bytes of one system call in front of a read.
ReadsExactly-behind :
    (n : ℕ) (c s : Bytes) (out : Option Bytes × List ReadOutcome)
    → length c ≤ n
    → ReadsExactly (n - length c) s out
    → ReadsExactly n (c ++ s) (elim out.0 [ none ↦ none | some cs ↦ some (c ++ cs) ], out.1)
ReadsExactly-behind n c s _ l (whole bytes os size e) =
    whole (c ++ bytes) os (omega (arith, length-append c bytes, size))
      (ap (◌++◌ c) e ∙ sym (append_assoc c bytes (arriving os)))
ReadsExactly-behind n c s _ l (short os size) = short os (omega (arith, length-append c s, size))

-- A system call with more than there is room for.
conn_read-more :
    (n b : ℕ) (bs : Bytes) (os : List ReadOutcome)
    → ltb (suc n) (length (b ∷ bs)) ≡ true
    → conn_read (suc n) (arrives (b ∷ bs) ∷ os)
      ≡ (some (take (suc n) (b ∷ bs)), arrives (drop (suc n) (b ∷ bs)) ∷ os)
unfolding conn_read
conn_read-more n b bs os e = simp e

conn_read-part :
    (n b : ℕ) (bs : Bytes) (os : List ReadOutcome)
    → ltb (suc n) (length (b ∷ bs)) ≡ false
    → conn_read (suc n) (arrives (b ∷ bs) ∷ os) ≡ (
      elim (conn_read (suc n - length (b ∷ bs)) os).0 [
        | none ↦ none
        | some cs ↦ some ((b ∷ bs) ++ cs)
      ],
      (conn_read (suc n - length (b ∷ bs)) os).1,
    )
unfolding conn_read
conn_read-part n b bs os e = simp e

ReadsExactly-more :
    (n b : ℕ) (bs : Bytes) (os : List ReadOutcome)
    → ltb (suc n) (length (b ∷ bs)) ≡ true
    → ReadsExactly (suc n) ((b ∷ bs) ++ arriving os) (conn_read (suc n) (arrives (b ∷ bs) ∷ os))
ReadsExactly-more n b bs os e =
    let rest = drop (suc n) (b ∷ bs) in
    let left : arriving (arrives rest ∷ os) ≡ rest ++ arriving os =
      arriving-arrives rest os (ground (arith, length-drop n bs)) in
    subst (ReadsExactly (suc n) ((b ∷ bs) ++ arriving os)) (sym (conn_read-more n b bs os e)) (
      whole (take (suc n) (b ∷ bs)) (arrives rest ∷ os) (ground (arith, length-take n bs)) (
        ap (λ t. t ++ arriving os) (sym (take-append-drop (suc n) (b ∷ bs)))
        ∙ append_assoc (take (suc n) (b ∷ bs)) rest (arriving os)
        ∙ ap (◌++◌ (take (suc n) (b ∷ bs))) (sym left)))

-- Exactly `n` bytes are returned, whole and in order, and what arrived behind them is left, if so many
-- arrive before the end or an error; otherwise the read fails. Signals and the division into system
-- calls make no difference.
pub conn_read_lem : (n : ℕ) (os : List ReadOutcome) → ReadsExactly n (arriving os) (conn_read n os)
unfolding conn_read
conn_read_lem zero os = whole [] os refl refl
conn_read_lem (suc n) [] = short [] (omega arith)
conn_read_lem (suc n) (read_interrupted ∷ os) = conn_read_lem (suc n) os
conn_read_lem (suc n) (closed ∷ os) = short os (omega arith)
conn_read_lem (suc n) (read_failed ∷ os) = short os (omega arith)
conn_read_lem (suc n) (arrives [] ∷ os) = short os (omega arith)
conn_read_lem (suc n) (arrives (b ∷ bs) ∷ os) = elim (Bool-cases (ltb (suc n) (length (b ∷ bs)))) [
  | inl more ↦ ReadsExactly-more n b bs os more
  | inr all ↦
      subst (ReadsExactly (suc n) ((b ∷ bs) ++ arriving os)) (sym (conn_read-part n b bs os all)) (
        ReadsExactly-behind (suc n) (b ∷ bs) (arriving os) (conn_read (suc n - length (b ∷ bs)) os)
          (ground arith) (conn_read_lem (suc n - length (b ∷ bs)) os))
]

-- What a read comes to on the stream: the bytes and what arrives behind them, or failure.
abbrev pub answer : Option Bytes × List ReadOutcome → Option (Bytes × Bytes)
answer (none, os) = none
answer (some bytes, os) = some (bytes, arriving os)

conn_read-whole :
    (bytes rest : Bytes) → Wire.conn_read (length bytes) (bytes ++ rest) ≡ some (bytes, rest)
unfolding Wire.conn_read
conn_read-whole bytes rest =
    ground (
      arith,
      length-append bytes rest,
      take-append_length bytes rest,
      drop-append_length bytes rest,
    )

conn_read-short : (n : ℕ) (s : Bytes) → length s < n → Wire.conn_read n s ≡ none
unfolding Wire.conn_read
conn_read-short n s l = ground arith

ReadsExactly-answer :
    (n : ℕ) (s : Bytes) (out : Option Bytes × List ReadOutcome)
    → ReadsExactly n s out
    → answer out ≡ Wire.conn_read n s
ReadsExactly-answer n s _ (whole bytes os size e) =
    sym (conn_read-whole bytes (arriving os))
    ∙ ap (Wire.conn_read (length bytes)) (sym e)
    ∙ ap (λ k. Wire.conn_read k s) size
ReadsExactly-answer n s _ (short os size) = sym (conn_read-short n s size)

-- The loop over `read` is the read of `n` bytes from the stream of what arrives before the end or an
-- error, which the readers of frames are written over: all of them, with what arrives behind them
-- left, or failure where there are not so many. Signals and the division into system calls make no
-- difference.
pub conn_read-conn_read :
    (n : ℕ) (os : List ReadOutcome) → answer (conn_read n os) ≡ Wire.conn_read n (arriving os)
conn_read-conn_read n os = ReadsExactly-answer n (arriving os) (conn_read n os) (conn_read_lem n os)
