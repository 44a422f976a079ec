-- ===== src/Adapter/Bridge.antt =====
-- adapter/displayxr_mcp.c: the two threads of `pump_thread` and the end of `main`, with
-- `dxr_conn_write_frame` of adapter/stdio_framing.c. A `Turn` is what one of the three threads does
-- next; a list of turns is an interleaving. What blocks takes no turn.
pub mod Turns
pub mod Up
pub mod Down
pub mod Relay
pub mod Messages
pub mod Written
pub mod Replies
use displayxr_mcp.Prelude.{
  ℕ, suc, zero, ◌+◌, Bool, true, false, not, ◌&&◌, Option, none, some, List, [], ◌∷◌, ◌++◌, length,
  if◌then◌else◌, Bytes, ascii,
}
use displayxr_mcp.Libc.{decimal}
use displayxr_mcp.Wire.{adapter, read_frame}
use displayxr_mcp.Framing.{
  Style, unknown, ndjson, content_length, Reader, encode, latch_set, latch_look,
}
use displayxr_mcp.Framing.Frames.{reader_next}

-- A writer to a connection or to standard output: behind what was written so far, the part of the
-- bytes that gets through, and whether that is all.
abbrev pub Sink : Type 0
Sink = Bytes → Bytes → Bytes × Bool

abbrev pub frame_header : ℕ → Bytes
frame_header n = ascii "Content-Length: " ++ (decimal n ++ ascii "\r\n\r\n")

-- `dxr_conn_write_frame`: what was written so far and is now, and whether all got through.
pub conn_write_frame : Sink → Bytes → Bytes → Bytes × Bool
conn_write_frame sink sent body =
    let (head, ok) = sink sent (frame_header (length body)) in
    let (rest, ok') = sink (sent ++ head) body in
    if ok then ((sent ++ head) ++ rest, ok') else (sent ++ head, false)

-- The adapter once it is connected. `held` is the frame that the thread to the client has read and
-- not yet written; `closing` is set when `main` has joined the thread to the server.
pub record Bridge : Type 0 where
  pub reader : Reader
  pub latch : Style
  pub to_server : Bytes
  pub up_done : Bool
  pub from_server : Bytes
  pub held : Option Bytes
  pub to_client : Bytes
  pub down_done : Bool
  pub closing : Bool

pub data Turn : Type 0 where
  up down close : Turn

-- What is not the adapter's own: the memory behind the reader's valid bytes, the two sinks, and what
-- can still be read from a connection behind `mcp_conn_abort`.
pub record World : Type 0 where
  pub beyond : Reader → Bytes
  pub server_sink : Sink
  pub client_sink : Sink
  pub after_abort : Bytes → Bytes

-- One round of the thread from standard input to the server.
pub up_round : World → Bridge → Bridge
up_round w b =
    let (reader, message) = reader_next (w.beyond b.reader) b.reader in
    elim message [
      | none ↦ record b { reader = reader; up_done = true }
      | some body ↦
          let (sent, ok) = conn_write_frame w.server_sink b.to_server body in
          record b {
            reader = reader;
            latch = latch_set b.latch reader.framing;
            to_server = sent;
            up_done = not ok;
          }
    ]

-- The thread from the server to standard output writes the frame that it holds in the client's
-- framing, once that is known.
pub write_as : World → Bridge → Bytes → Style → Bridge
write_as w b body style =
    let (out, ok) = w.client_sink b.to_client (encode style body) in
    record b { held = none; to_client = b.to_client ++ out; down_done = not ok }

pub write_held : World → Bridge → Bytes → Bridge
write_held w b body = elim (latch_look b.latch) [ none ↦ b | some style ↦ write_as w b body style ]

pub read_held : World → Bridge → Bridge
read_held w b = elim (read_frame adapter b.from_server) [
  | none ↦ record b { down_done = true }
  | some frame ↦ record b { from_server = frame.1; held = some frame.0 }
]

-- One round of that thread, by what it holds.
pub down_round : World → Bridge → Option Bytes → Bridge
unfolding write_held read_held
down_round w b none = read_held w b
down_round w b (some body) = write_held w b body

-- `main` behind the join of the thread to the server.
pub close_down : World → Bridge → Bridge
close_down w b = record b {
  latch = latch_set b.latch ndjson;
  from_server = w.after_abort b.from_server;
  closing = true;
}

pub turn : World → Turn → Bridge → Bridge
unfolding up_round down_round close_down
turn w up b = if b.up_done then b else up_round w b
turn w down b = if b.down_done then b else down_round w b b.held
turn w close b = if b.up_done && not b.closing then close_down w b else b

pub run : World → List Turn → Bridge → Bridge
unfolding turn
run w [] b = b
run w (t ∷ ts) b = run w ts (turn w t b)
