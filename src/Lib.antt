-- ===== src/Lib.antt =====
-- A verification library for displayxr-mcp, the MCP (Model Context Protocol) framework of DisplayXR.
--
-- The program. An application links the server library: a log ring (src/mcp_log_ring.c), an
-- allowlist of clients (src/mcp_allowlist.c), and the server proper (src/mcp_server.c), with its
-- registry of tools, its client slots and threads, and the JSON-RPC dispatch. A separate process,
-- the adapter, speaks MCP with an agent on its standard streams and forwards to servers. With
-- `--target workspace` it merges many servers (adapter/workspace_aggregator.c): it gives each a
-- prefix, lists their tools as `<prefix>__<tool>`, forwards calls under ids of its own, and brings
-- the responses back. Adapter and server talk in Content-Length frames (src/mcp_server.c and
-- adapter/stdio_framing.c).
--
-- Which file models what. A function keeps its C name (without its `mcp_` prefix and the like).
-- - LogRing: src/mcp_log_ring.c. History holds the abstract view, the list of all lines; Refine
--   relates the two.
-- - Libc: `strtol`, `strtoul` and "%zu" of the C standard library, as the sources use them.
-- - Allowlist: src/mcp_allowlist.c, for both widths of `long`.
-- - Wire: the Content-Length frames of src/mcp_server.c (`Side.server`) and adapter/stdio_framing.c
--   (`Side.adapter`).
-- - Json: an interface of what the code calls of the vendored cJSON (external/cjson), with the
--   documented behaviour it relies on as laws; Json/Tree is an instance of it.
-- - Server: src/mcp_server.c, the state, the registry, the app id and the notifications; Server/Rpc
--   the dispatch; Server/Lifecycle the slots, the accept loop, start and stop,
--   Interleave the orders in which the accept loop and the client threads take their steps, and
--   Process all these with the log ring and the allowlist.
-- - Aggregator: adapter/workspace_aggregator.c; Prefix (slugs and the registry of prefixes), Ids (the
--   table of requests in flight), Name (joining and splitting names), Backends (a backend's reader,
--   refresh, teardown and registration), Agent (the agent's messages), Membership (the poll),
--   Setup (the handshake of a new backend), Run (the loop over the agent's messages, poll rounds).
-- - Capture: src/mcp_capture.c, the hand-off of capture requests, with the wait as a list of events.
-- - Framing: adapter/stdio_framing.c, the agent's side: the buffer and its `fill`, the reader of lines
--   (`next_ndjson`), the encoder and the latch; Framing/Frames the reader of Content-Length frames,
--   the detection and `dxr_stdio_reader_next`. The input is the list of what its reads find.
-- - Transport: src/mcp_transport.c on POSIX: socket names and sessions, the loops that read and write
--   on a connection, and (Sockets) the system calls that open and close, as a trace; Transport/Pipes
--   the names, the sessions and the loops on Windows.
-- - Adapter: adapter/displayxr_mcp.c. Arguments is `main` up to the connection, Bridge the two pump
--   threads and the close, as turns of an interleaving; Delivery composes the adapter's reader, the
--   bridge and the server's reader of frames, and Bridge/Replies all three threads on the way back.
-- - Audit: src/mcp_audit.c on POSIX, with the log and its backup as two files.
--
-- How state is modelled. The static structures are records, and a function that holds the lock over
-- its accesses is one step from state to state; messages that it sends are a list of outputs.
-- Interleavings of threads are lists of such steps. What the operating system answers (does a write
-- succeed, does a thread start, which pids exist) is an argument. Bytes are numbers, a C string is
-- the list of its bytes before the NUL. `uint64_t` additions keep their wrap, `% 2 ^ 64`.
--
-- Fuel. The loop of `mcp_allowlist_init` and the header loop of `read_frame` run on fuel one above
-- the number of bytes left, and each round takes a byte or ends; `decimal` has fuel above its number.
-- The loops of the agent's reader run on `rounds`, one above the bytes still to come and once more
-- those of the source: each round takes a byte of the source into the buffer or a byte of the
-- buffer away; the aggregator's loop over the agent's messages has the same fuel, since each message
-- takes a byte. All other loops are structural.
--
-- Not modelled: how named pipes are opened, accepted and closed (src/mcp_transport.c, the Windows
-- part); the shims of src/os_compat.c; failing allocation; what is printed to stderr; tests, build
-- files and installers.
pub mod Prelude
pub mod Libc
pub mod LogRing
pub mod Allowlist
pub mod Wire
pub mod Json
pub mod Server
pub mod Audit
pub mod Transport
pub mod Adapter
pub mod Aggregator
pub mod Capture
pub mod Framing
