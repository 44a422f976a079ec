-- ===== src/LogRing/Stream.antt =====
-- `mcp_log_ring_read` as `tail_log` uses it: polling with the returned cursor.
use displayxr_mcp.Prelude.{
  ℕ, ◌+◌, ◌-◌, ◌^◌, ◌<◌, min, max, ◌≡◌, ap, sym, ◌∙◌, List, ◌++◌, length, take, drop, arith,
  length-drop, take-add, drop-drop, ltb, Bool-cases, inl, inr, drop_all,
}
use displayxr_mcp.LogRing.{LogRing, ring_size, read}
use displayxr_mcp.LogRing.History.{History, read_history}
use displayxr_mcp.LogRing.Refine.{Holds, read-Holds}

-- A cursor clamped to the end cuts as the unclamped one does.
drop-min {ℓ} :
    {A : Type ℓ} (k m : ℕ) (xs : List A) → drop (k + min m (length xs - k)) xs ≡ drop m (drop k xs)
drop-min k m xs = elim (Bool-cases (ltb m (length xs - k))) [
  | inl short ↦
      let whole : k + min m (length xs - k) ≡ k + m = ground arith in
      ap (λ j. drop j xs) whole ∙ sym (drop-drop m k xs)
  | inr long ↦
      drop_all _ xs (ground arith) ∙ sym (drop_all m (drop k xs) (ground (arith, length-drop k xs)))
]

poll_history :
    (h : History) (since m n : ℕ)
    → let first = read_history h since m in
      let second = read_history h first.next_cursor n in
      (first.entries ++ second.entries ≡ (read_history h since (m + n)).entries)
      × (second.next_cursor ≡ (read_history h since (m + n)).next_cursor)
      × (second.dropped ≡ 0)
unfolding read_history
poll_history h since m n = (
  ap (λ k. take m (drop start h) ++ take n (drop k h)) at_cursor
      ∙ ap (λ l. take m (drop start h) ++ take n l) (drop-min start m h)
      ∙ sym (take-add m n (drop start h)),
  omega arith,
  omega arith,
)
  where
    start : ℕ
    start = max since (length h - ring_size)

    cursor : ℕ
    cursor = start + min m (length h - start)

    at_cursor : max cursor (length h - ring_size) ≡ cursor
    at_cursor = omega arith

next_cursor-lt :
    (h : History) (since m : ℕ)
    → since + ring_size + length h < 2 ^ 64
    → (read_history h since m).next_cursor + 1 < 2 ^ 64
unfolding read_history
next_cursor-lt h since m b = omega arith

-- On a ring that holds a history, a poll for `m` lines and, with nothing logged in between, a poll
-- for `n` from the cursor that it returned give the lines of one poll for `m + n`, one after the
-- other, and leave the same cursor; the second poll loses nothing. The cursor and the number of
-- lines stay below 2 ^ 64 by the size of the ring.
pub read-read :
    {r : LogRing} {h : History} (since m n : ℕ)
    → Holds r h
    → since + ring_size + length h < 2 ^ 64
    → let first = read r since m in
      let second = read r first.next_cursor n in
      (first.entries ++ second.entries ≡ (read r since (m + n)).entries)
      × (second.next_cursor ≡ (read r since (m + n)).next_cursor)
      × (second.dropped ≡ 0)
read-read {r} {h} since m n v b =
    let one = read-Holds since m v (omega arith) in
    let both = read-Holds since (m + n) v (omega arith) in
    let two = read-Holds (read_history h since m).next_cursor n v (next_cursor-lt h since m b) in
    rw (one, both, two) (poll_history h since m n)
