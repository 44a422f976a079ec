-- ===== src/LogRing/History.antt =====
-- The abstract view of the log ring: every line that was ever stored, oldest first, of which the
-- newest `ring_size` can be read.
use displayxr_mcp.Prelude.{
  ℕ, ◌+◌, ◌-◌, List, [], ◌∷◌, ◌++◌, length, take, drop, min, max, Option, none, some, Bytes, Bool,
  if◌then◌else◌,
}
use displayxr_mcp.LogRing.{
  Level, Entry, LogRing, Batch, ring_size, new_entry, start, stop, append, append_text,
}

abbrev pub History : Type 0
History = List Entry

-- The lines past the cursor `since` that still are among the newest `ring_size`, at most
-- `max_entries` of them, the cursor of the last one, and how many lines were too old.
unfoldable pub read_history : History → ℕ → ℕ → Batch
read_history h since max_entries =
    let lost = length h - ring_size in
    let first = max since lost in
    record {
      entries = take max_entries (drop first h);
      next_cursor = first + min max_entries (length h - first);
      dropped = lost - since;
    }

-- What an embedder can do to the log, in order.
pub data Event : Type 0 where
  starts stops : Event
  texts formats : ℕ → Level → Option Bytes → Event

unfoldable pub step : LogRing → Event → LogRing
unfolding start stop append append_text
step r starts = start r
step r stops = stop r
step r (texts now level text) = append_text r now level text
step r (formats now level text) = append r now level text

unfoldable pub run : LogRing → List Event → LogRing
unfolding step
run r [] = r
run r (e ∷ es) = run (step r e) es

-- The history after a stored line.
abbrev pub record_line : Bool → History → ℕ → Level → Bytes → History
record_line started h now level text =
    if started then h ++ (new_entry (length h + 1) now level text ∷ []) else h

-- The history and the `started` flag that a list of events leaves.
unfoldable pub log : Bool → History → List Event → History
log started h [] = h
log started h (starts ∷ es) = log Bool.true h es
log started h (stops ∷ es) = log Bool.false h es
log started h (texts now level none ∷ es) = log started h es
log started h (texts now level (some t) ∷ es) = log started (record_line started h now level t) es
log started h (formats now level none ∷ es) = log started h es
log started h (formats now level (some t) ∷ es) =
    log started (record_line started h now level (take 511 t)) es
