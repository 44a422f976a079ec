-- ===== src/LogRing/Refine.antt =====
-- The ring holds the newest lines of its history, and a read of the ring is a read of the history.
use displayxr_mcp.Prelude.{
  ℕ, zero, suc, ◌+◌, ◌-◌, ◌^◌, ◌≤◌, ◌<◌, min, ◌≡◌, ◌∙◌, subst, List, [], ◌∷◌, ◌++◌, length, take,
  drop, get_elem?, none, some, ltb, arith, Bytes, Bool, false, inl, inr, length-append,
  get_elem?-append_left, get_elem?-append_last, drop-get_elem?, drop_all, Bool-cases,
}
use displayxr_mcp.LogRing.{
  Level, Entry, LogRing, ring_size, slot, new_entry, write_slot, append, append_text, store,
  collect, read, read_from, initial, start, stop,
}
use displayxr_mcp.LogRing.History.{
  History, read_history, Event, starts, stops, texts, formats, step, run, log, record_line,
}

-- The state stands for the history `h`: the counter is one past it, no addition has wrapped, and
-- each of the newest `ring_size` lines is in its slot.
pub record Holds (r : LogRing) (h : History) : Type 0 where
  pub counted : r.next_seq ≡ length h + 1
  pub small : length h + 1 < 2 ^ 64
  pub kept :
      (i : ℕ)
      → i < length h
      → length h ≤ i + ring_size
      → get_elem? h i ≡ some (r.ring (slot (i + 1)))

-- The loop copies the lines from `start` on.
collect-Holds :
    {r : LogRing} {h : History} (room i : ℕ)
    → Holds r h
    → length h ≤ i + ring_size
    → collect r.ring (i + 1) r.next_seq room
      ≡ (take room (drop i h), i + 1 + min room (length h - i))
unfolding collect
collect-Holds zero i v w = ground arith
collect-Holds {r} {h} (suc room) i v w = elim (Bool-cases (ltb i (length h))) [
  | inl more ↦ ground (
    arith,
    v.counted,
    v.kept i,
    drop-get_elem? h i {x = r.ring (slot (i + 1))},
    collect-Holds room (i + 1) v,
  )
  | inr done ↦ ground (arith, v.counted, drop_all i h)
]

pub initial-Holds : Holds initial []
initial-Holds = record {
  counted = omega arith;
  small = omega arith;
  kept = λ i h w. absurd (omega arith);
}

-- A new line overwrites only a slot whose line is no longer among the newest.
kept-write :
    {r : LogRing} {h : History} (e : Entry) (i : ℕ)
    → Holds r h
    → i < length (h ++ (e ∷ []))
    → length (h ++ (e ∷ [])) ≤ i + ring_size
    → get_elem? (h ++ (e ∷ [])) i ≡ some (write_slot r.ring (slot r.next_seq) e (slot (i + 1)))
kept-write {r} {h} e i v b w = elim (Bool-cases (ltb i (length h))) [
  | inl old ↦
      ground
        (arith, v.counted, v.kept i, length-append h (e ∷ []), get_elem?-append_left h (e ∷ []) i)
  | inr new ↦
      let at_end : i ≡ length h = ground (arith, length-append h (e ∷ [])) in
      rw at_end (get_elem?-append_last h e ∙ ground (arith, v.counted))
]

store-Holds :
    {r : LogRing} {h : History} (e : Entry)
    → Holds r h
    → length h + 2 < 2 ^ 64
    → Holds (store r e) (h ++ (e ∷ []))
unfolding store
store-Holds {r} {h} e v b = record {
  counted = ground (arith, v.counted, length-append h (e ∷ []));
  small = ground (arith, length-append h (e ∷ []));
  kept = λ i lt w. kept-write e i v lt w;
}

-- A started ring takes the line, with the next number; a stopped one drops it.
append_text-Holds :
    {r : LogRing} {h : History} (now : ℕ) (level : Level) (text : Bytes)
    → Holds r h
    → length h + 2 < 2 ^ 64
    → Holds (append_text r now level (some text)) (record_line r.started h now level text)
unfolding append_text
append_text-Holds {r} {h} now level text v b = elim (Bool-cases r.started) [
  | inl on ↦ simp on (
      subst
        (λ n.
          Holds (store r (new_entry r.next_seq now level text))
            (h ++ (new_entry n now level text ∷ [])))
        v.counted (store-Holds _ v b))
  | inr off ↦ simp off v
]

length-record_line :
    (b : Bool) (h : History) (now : ℕ) (level : Level) (t : Bytes)
    → length (record_line b h now level t) ≤ length h + 1
length-record_line b h now level t =
    ground (arith, length-append h (new_entry (length h + 1) now level t ∷ []))

started-append_text :
    (r : LogRing) (now : ℕ) (level : Level) (t : Bytes)
    → (append_text r now level (some t)).started ≡ r.started
unfolding append_text store
started-append_text r now level t = ground arith

-- One stored line before the events `es`.
line-Holds :
    {r : LogRing} {h : History} (now : ℕ) (level : Level) (t : Bytes) (es : List Event)
    → Holds r h
    → length h + length es + 3 < 2 ^ 64
    → ((q : LogRing) (k : History)
        → Holds q k
        → length k + length es + 2 < 2 ^ 64
        → Holds (run q es) (log q.started k es))
    → Holds
        (run (append_text r now level (some t)) es)
        (log r.started (record_line r.started h now level t) es)
line-Holds {r} {h} now level t es v b rest =
    subst
      (λ on.
        Holds (run (append_text r now level (some t)) es)
          (log on (record_line r.started h now level t) es))
      (started-append_text r now level t)
      (rest _ _ (append_text-Holds now level t v (omega arith))
        (omega (arith, length-record_line r.started h now level t)))

-- Each event leaves the ring holding the history that the event leaves.
pub run-Holds :
    (es : List Event) (r : LogRing) (h : History)
    → Holds r h
    → length h + length es + 2 < 2 ^ 64
    → Holds (run r es) (log r.started h es)
unfolding run step append start stop log
run-Holds [] r h v b = v
run-Holds (starts ∷ es) r h v b =
    run-Holds es _ h (record { counted = v.counted; small = v.small; kept = v.kept }) (omega arith)
run-Holds (stops ∷ es) r h v b =
    run-Holds es _ h (record { counted = v.counted; small = v.small; kept = v.kept }) (omega arith)
run-Holds (texts now level none ∷ es) r h v b = run-Holds es r h v (omega arith)
run-Holds (texts now level (some t) ∷ es) r h v b =
    line-Holds now level t es v (omega arith) (run-Holds es)
run-Holds (formats now level none ∷ es) r h v b = run-Holds es r h v (omega arith)
run-Holds (formats now level (some t) ∷ es) r h v b =
    line-Holds now level (take 511 t) es v (omega arith) (run-Holds es)

read_from-Holds :
    {r : LogRing} {h : History} (i dropped max_entries : ℕ)
    → Holds r h
    → length h ≤ i + ring_size
    → read_from r (i + 1) dropped max_entries ≡ record {
      entries = take max_entries (drop i h);
      next_cursor = i + min max_entries (length h - i);
      dropped = dropped;
    }
unfolding read_from
read_from-Holds {r} {h} i dropped m v w = ground (arith, collect-Holds m i v w)

-- Whatever has been logged, a read from a cursor returns the lines of the history past it, as many
-- as asked for and still held, the cursor of the last of them, and how many were lost.
pub read-Holds :
    {r : LogRing} {h : History} (since max_entries : ℕ)
    → Holds r h
    → since + 1 < 2 ^ 64
    → read r since max_entries ≡ read_history h since max_entries
unfolding read read_history
read-Holds {r} {h} since m v b = elim (Bool-cases (ltb (since + ring_size) (length h))) [
  | inl old ↦
      ground (
        arith,
        v.counted,
        read_from-Holds (length h - ring_size) (length h - ring_size - since) m v,
      )
  | inr new ↦ ground (arith, v.counted, read_from-Holds since 0 m v)
]

-- From the static initial state, after any list of calls to the log (fewer than 2 ^ 64 - 2 of
-- them), a read from any cursor below 2 ^ 64 - 1 returns the lines of the history past the cursor,
-- in order, as many as are asked for and still among the newest 512, the cursor of the last one
-- returned, and the number of lines past the cursor that were overwritten. A start or a stop of the
-- ring among the calls takes no line away.
pub read-run :
    (es : List Event) (since max_entries : ℕ)
    → length es + 2 < 2 ^ 64
    → since + 1 < 2 ^ 64
    → read (run initial es) since max_entries ≡ read_history (log false [] es) since max_entries
read-run es since m b c = read-Holds since m (run-Holds es initial [] initial-Holds (omega arith)) c
