-- ===== src/Adapter/Tests.antt =====
-- The adapter between an agent and a server, on two messages.
use displayxr_mcp.Prelude.{
  ◌≡◌, refl, false, true, none, inl, List, [], ◌∷◌, ◌++◌, Bytes, map, ascii, arith,
}
use displayxr_mcp.Wire.{server, newline}
use displayxr_mcp.Framing.{unknown, ndjson, Reader, encode}
use displayxr_mcp.Framing.Ready.{IsReady}
use displayxr_mcp.Framing.Frames.Next.{IsKnown, received}
use displayxr_mcp.Adapter.Bridge.{Bridge, World, Turn, up, down, close, run}
use displayxr_mcp.Adapter.Bridge.Up.{encoded, frames, AllMessages, Sends}
use displayxr_mcp.Adapter.Bridge.Messages.{IsClients}
use displayxr_mcp.Adapter.Bridge.Written.{Framed}
use displayxr_mcp.Adapter.Bridge.Replies.{run-Framed}
use displayxr_mcp.Adapter.Bridge.Relay.{run-encoded}
use displayxr_mcp.Adapter.Arguments.{Servers, connect_process, main_outcome}
use displayxr_mcp.Adapter.Arguments.Choice.{main_outcome-pid}
use displayxr_mcp.Libc.{decimal}
use displayxr_mcp.Adapter.Delivery.{run-Reads}
use displayxr_mcp.Wire.RoundTrip.{Reads}

-- A world in which all gets through.
abbrev quiet : World
quiet = record {
  beyond = λ r. [];
  server_sink = λ sent bytes. (bytes, true);
  client_sink = λ sent bytes. (bytes, true);
  after_abort = λ s. [];
}

abbrev requests : List Bytes
requests = ascii "{1}" ∷ ascii "{2}" ∷ []

-- The agent's two lines, in reads of three bytes and five.
abbrev client : Reader
client = record {
  buffer = [];
  capacity = 0;
  eof = false;
  framing = unknown;
  source = ascii "{1}" ∷ (newline ∷ b'{' ∷ b'2' ∷ b'}' ∷ newline ∷ []) ∷ [];
}

client-IsReady : IsReady client
client-IsReady = record {
  more = refl;
  fits = omega arith;
  sized = inl refl;
  chunks = (omega arith, (omega arith, tt));
}

abbrev bridge : Bridge
bridge = record {
  reader = client;
  latch = unknown;
  to_server = [];
  up_done = false;
  from_server = frames requests;
  held = none;
  to_client = [];
  down_done = false;
  closing = false;
}

abbrev schedule : List Turn
schedule = down ∷ up ∷ down ∷ up ∷ up ∷ close ∷ down ∷ []

ndjson-IsKnown : IsKnown ndjson
ndjson-IsKnown = λ h. cc

bridge-Sends : Sends ndjson requests [] bridge
unfolding encode
bridge-Sends = record {
  going = refl;
  ready = client-IsReady;
  style_is = inl refl;
  coming = refl;
  so_far = refl;
}

requests-AllMessages : AllMessages requests
requests-AllMessages = ((_, refl, omega arith), ((_, refl, omega arith), tt))

run-Reads_example :
    Reads server (run quiet schedule bridge).to_server (map (received ndjson) requests) []
run-Reads_example =
    run-Reads quiet ndjson schedule requests bridge (λ sent bytes. refl) ndjson-IsKnown
      requests-AllMessages (omega arith, (omega arith, tt)) bridge-Sends (omega arith)

run-Framed_example :
    IsClients ndjson (run quiet schedule bridge).latch
    × ((run quiet schedule bridge).latch ≡ unknown → (run quiet schedule bridge).to_client ≡ [])
    × Framed quiet ndjson requests (run quiet schedule bridge)
run-Framed_example =
    run-Framed quiet ndjson schedule (ascii "{1}") (ascii "{2}" ∷ []) requests bridge
      (λ sent bytes. refl) (λ sent bytes. refl) ndjson-IsKnown requests-AllMessages
      (omega arith, omega arith, (omega arith, omega arith, tt)) bridge-Sends
      (record { unlatched = refl; free = refl; nothing = refl; connected = refl; coming = refl })

-- The bridge once the latch is set.
abbrev latched : Bridge
latched = record bridge { latch = ndjson }

run-encoded_example :
    (run quiet (down ∷ up ∷ down ∷ down ∷ down ∷ []) latched).to_client ≡ encoded ndjson requests
run-encoded_example =
    run-encoded quiet ndjson (down ∷ up ∷ down ∷ down ∷ down ∷ []) requests [] latched
      (λ sent bytes. refl) ndjson-IsKnown tt
      ((omega arith, omega arith, (omega arith, omega arith, tt)))
      (record { going = refl; style_is = refl; holds = refl; coming = refl; so_far = refl })
      (omega arith)

-- A machine with two sessions and no shell.
abbrev servers : Servers
servers = record {
  reaches_role = λ r. false;
  reaches_process = λ n. true;
  sessions = 12 ∷ 345 ∷ [];
}

main_outcome-pid_example :
    (main_outcome servers (ascii "--pid" ∷ decimal 345 ∷ []) ≡ connect_process servers 345)
    × (main_outcome servers (ascii "--target" ∷ (ascii "pid:" ++ decimal 345) ∷ [])
        ≡ connect_process servers 345)
main_outcome-pid_example = main_outcome-pid servers 345 (omega arith) (omega arith)
