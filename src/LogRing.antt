-- ===== src/LogRing.antt =====
-- src/mcp_log_ring.c and include/displayxr_mcp/mcp_log_ring.h: the lock-protected ring of log
-- lines. Every function runs under `g_lock` from its first access to its last, so each is one
-- atomic step on the state. `uint64_t` additions keep their wrap.
pub mod History
pub mod Refine
pub mod Stream
mod Tests
use displayxr_mcp.Prelude.{
  ℕ, zero, suc, ◌+◌, ◌-◌, ◌%◌, ◌^◌, Bool, true, false, Option, none, some, List, [], ◌∷◌, length,
  take, ltb, ◌==◌, if◌then◌else◌, Bytes,
}

-- `enum mcp_log_level`
pub data Level : Type 0 where
  trace debug info warn error raw : Level

-- `struct mcp_log_entry`
pub record Entry : Type 0 where
  pub seq : ℕ
  pub timestamp_ns : ℕ
  pub level : Level
  pub text : Bytes

-- RING_SIZE
abbrev pub ring_size : ℕ
ring_size = 512

-- MCP_LOG_MAX_TEXT
abbrev pub max_text : ℕ
max_text = 512

-- The file's static state: `g_ring` by slot index, `g_next_seq`, `g_started`.
pub record LogRing : Type 0 where
  pub ring : ℕ → Entry
  pub next_seq : ℕ
  pub started : Bool

abbrev pub blank : Entry
blank = record { seq = 0; timestamp_ns = 0; level = trace; text = [] }

-- The static initialisers.
abbrev pub initial : LogRing
initial = record { ring = λ _. blank; next_seq = 1; started = false }

unfoldable pub start : LogRing → LogRing
start r = record r { started = true }

unfoldable pub stop : LogRing → LogRing
stop r = record r { started = false }

-- `seq & (RING_SIZE - 1)`, with RING_SIZE a power of two.
abbrev pub slot : ℕ → ℕ
slot seq = seq % ring_size

-- `a + 1` on `uint64_t`.
abbrev pub next_u64 : ℕ → ℕ
next_u64 a = (a + 1) % 2 ^ 64

abbrev pub write_slot : (ℕ → Entry) → ℕ → Entry → ℕ → Entry
write_slot g i e j = if i == j then e else g j

-- What fits `char text[512]` with its NUL: all of a shorter text, else its first 511 bytes.
abbrev pub fit_text : Bytes → Bytes
fit_text t = take (if ltb (length t) max_text then length t else max_text - 1) t

abbrev pub new_entry : ℕ → ℕ → Level → Bytes → Entry
new_entry seq now level text = record {
  seq = seq;
  timestamp_ns = now;
  level = level;
  text = fit_text text;
}

-- Taking the next number and filling its slot.
pub store : LogRing → Entry → LogRing
store r e = record r {
  next_seq = next_u64 r.next_seq;
  ring = write_slot r.ring (slot r.next_seq) e;
}

-- `now` is what `mcp_monotonic_ns` returns; `text` is `none` for NULL.
pub append_text : LogRing → ℕ → Level → Option Bytes → LogRing
append_text r now level none = r
append_text r now level (some text) =
    if r.started then store r (new_entry r.next_seq now level text) else r

-- `formatted` is the full text that `vsnprintf` makes, `none` where it returns a negative number;
-- it stores at most 511 bytes of it in the local buffer.
pub append : LogRing → ℕ → Level → Option Bytes → LogRing
unfolding append_text
append r now level none = r
append r now level (some formatted) = append_text r now level (some (take (max_text - 1) formatted))

-- What `mcp_log_ring_read` stores through its `out_` parameters.
pub record Batch : Type 0 where
  pub entries : List Entry
  pub next_cursor : ℕ
  pub dropped : ℕ

-- The copy loop: `room` is `max_entries - count`. It returns the entries and the final `start`.
-- `start < next` bounds `start`, so `start++` cannot wrap.
pub collect : (ℕ → Entry) → ℕ → ℕ → ℕ → List Entry × ℕ
collect g start next zero = ([], start)
collect g start next (suc room) =
    let (es, stop') = collect g (start + 1) next room in
    if ltb start next then (g (slot start) ∷ es, stop') else ([], start)

abbrev pub oldest_in_ring : ℕ → ℕ
oldest_in_ring next = if ltb ring_size next then next - ring_size else 1

-- The tail of `mcp_log_ring_read`, from the adjusted `start`.
pub read_from : LogRing → ℕ → ℕ → ℕ → Batch
unfolding collect
read_from r start dropped max_entries =
    let (es, stop') = collect r.ring start r.next_seq max_entries in
    record { entries = es; next_cursor = if ltb 0 stop' then stop' - 1 else 0; dropped = dropped }

pub read : LogRing → ℕ → ℕ → Batch
read r since max_entries =
    let oldest = oldest_in_ring r.next_seq in
    let start' = next_u64 since in
    if ltb start' oldest
    then read_from r oldest (oldest - start') max_entries
    else read_from r start' 0 max_entries
