-- ===== src/Adapter/Delivery.antt =====
-- adapter/displayxr_mcp.c with src/mcp_server.c: what the agent writes is what the server reads.
use displayxr_mcp.Prelude.{
  ◌≤◌, ◌<◌, ◌≢◌, sym, ap, subst, List, [], ◌∷◌, length, length_pos, map, Bytes, arith,
}
use displayxr_mcp.Wire.{server, max_frame}
use displayxr_mcp.Wire.RoundTrip.{read_frame-write_frame, Reads, stop, frame}
use displayxr_mcp.Framing.{
  Style, unknown, ndjson, content_length, trim, trim_left, trim_right, one_line,
}
use displayxr_mcp.Framing.Encode.{length-one_line}
use displayxr_mcp.Framing.Frames.Next.{IsMessage, IsKnown, received, trim-message}
use displayxr_mcp.Adapter.Bridge.{Bridge, World, Turn, run}
use displayxr_mcp.Adapter.Bridge.Up.{TakesAll, frames, AllMessages, ups, Sends, run-delivers}

-- Messages that the server takes.
abbrev pub AllShort : List Bytes → Type 0
AllShort [] = Unit {0}
AllShort (m ∷ ms) = (length m ≤ max_frame server) × AllShort ms

length-trim_left : (s : Bytes) → length (trim_left s) ≤ length s
unfolding trim_left
length-trim_left [] = omega arith
length-trim_left (c ∷ cs) = ground (arith, length-trim_left cs)

length-trim_right : (s : Bytes) → length (trim_right s) ≤ length s
unfolding trim_right
length-trim_right [] = omega arith
length-trim_right (c ∷ cs) = ground (arith, length-trim_right cs)

length-trim_message : (s : Bytes) → length (trim (map one_line s)) ≤ length s
unfolding trim
length-trim_message s = omega (
  arith,
  length-trim_right (trim_left (map one_line s)),
  length-trim_left (map one_line s),
  length-one_line s,
)

received-bounds :
    (style : Style) (m : Bytes)
    → IsMessage m
    → (0 < length (received style m)) × (length (received style m) ≤ length m)
unfolding received
received-bounds content_length m (cs, e, l) = (omega (arith, ap length e), omega arith)
received-bounds ndjson m (cs, e, l) = (
  length_pos (trim (map one_line m))
      (subst (λ b. trim (map one_line b) ≢ []) (sym e) (trim-message cs)),
  length-trim_message m,
)
received-bounds unknown m (cs, e, l) = (
  length_pos (trim (map one_line m))
      (subst (λ b. trim (map one_line b) ≢ []) (sym e) (trim-message cs)),
  length-trim_message m,
)

frames-Reads :
    (style : Style) (ms : List Bytes)
    → AllMessages ms
    → AllShort ms
    → Reads server (frames (map (received style) ms)) (map (received style) ms) []
frames-Reads style [] a h = stop
frames-Reads style (m ∷ ms) a h =
    let size = received-bounds style m a.0 in
    frame
      (read_frame-write_frame server (received style m) (frames (map (received style) ms)) size.0
        (omega (arith, size.1, h.0)))
      (frames-Reads style ms a.1 h.1)

-- From the agent to the server: however standard input is divided into reads and whatever the
-- interleaving of the adapter's threads, the server reads exactly the messages that the agent wrote,
-- in order, and nothing else. The agent writes JSON objects of at most 4 MiB in either framing
-- (lines lose their line breaks and the white space around them); the connection takes all that is
-- written and was not written to before; the thread to the server runs, its reader is before the end
-- of its input and knows no framing yet or the agent's, and it has a turn for each message and one
-- for the end of the input.
pub run-Reads :
    (w : World) (style : Style) (ts : List Turn) (ms : List Bytes) (b : Bridge)
    → TakesAll w.server_sink
    → IsKnown style
    → AllMessages ms
    → AllShort ms
    → Sends style ms [] b
    → length ms < ups ts
    → Reads server (run w ts b).to_server (map (received style) ms) []
run-Reads w style ts ms b t k a short h l =
    subst (λ s. Reads server s (map (received style) ms) [])
      (sym (run-delivers w style ts ms [] b t k a h l).1) (frames-Reads style ms a short)
