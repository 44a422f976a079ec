-- ===== src/Server/Tests.antt =====
-- src/mcp_server.c: the server on concrete tools, clients and messages.
use displayxr_mcp.Prelude.{
  ℕ, zero, suc, get_elem?, ◌+◌, ◌-◌, ◌≤◌, ◌<◌, ◌≡◌, ◌≢◌, refl, true, false, ◌&&◌, ◌||◌, none, some,
  List, [], ◌∷◌, length, ltb, if◌then◌else◌, Bytes, ascii, str_eq, arith,
}
use displayxr_mcp.Json.{pos}
use displayxr_mcp.Json.Tree.{tree, Value, Members}
use displayxr_mcp.Json.Tree as Tree
use displayxr_mcp.Server.{
  Tool, app, Client, free_slot, Server, initial, find_tool, register_tool, unregister_tool,
  set_app_id, notify_tools_changed, max_tools, max_conns,
}
use displayxr_mcp.Server.Registry.{
  Op, registers, unregisters, names, IsBounded, run-IsBounded, occurrences, find_tool-register_tool,
  find_tool-unregister_tool,
}
use displayxr_mcp.Server.Registry as Registry
use displayxr_mcp.Server.AppId.{IsSlug, set_app_id_lem}
use displayxr_mcp.Server.Lifecycle.{accept, start, stop_listening, stop_end}
use displayxr_mcp.Server.Lifecycle.Slots.{IsValid, initial-IsValid}
use displayxr_mcp.Server.Lifecycle.Interleave.{
  Event, accepts, shakes, begins_write, ends_write, exits, run-IsValid, accept_lem,
}
use displayxr_mcp.Server.Lifecycle.Interleave as Interleave
use displayxr_mcp.Server.Lifecycle.Interleave.Notices.{times, notify_tools_changed-run}
use displayxr_mcp.Server.Lifecycle.Restart.{start-stop}
use displayxr_mcp.LogRing as LogRing
use displayxr_mcp.Allowlist.{lp64}
use displayxr_mcp.Allowlist as Allowlist
use displayxr_mcp.Server.Lifecycle.Process.{
  Process, starts, connects, leaves, stops, IsReady, events, events-IsReady,
}
use displayxr_mcp.Server.Lifecycle.Process as Process
use displayxr_mcp.Server.Rpc.{
  handle_request, error_envelope, result_envelope, method_not_found, server_error, string_value?,
}
use displayxr_mcp.Server.Rpc.Envelope.{Answers}
use displayxr_mcp.Server.Rpc.Dispatch.{handle_request_lem}
use displayxr_mcp.Server.Rpc.Calls.{IsCall, flagged, payload_text, tools_call_lem}

abbrev tool_named : Bytes → Tool Value
tool_named name = record {
  name = name;
  description = none;
  input_schema_json = none;
  fn = λ args. args;
  group = app;
}

abbrev move : Tool Value
move = tool_named (ascii "move")

abbrev one_tool : Server Value
one_tool = record initial { tools = move ∷ [] }

find_tool-register_tool_example :
    find_tool (register_tool one_tool (some (tool_named (ascii "turn")))).0 (ascii "turn")
    ≡ (elim (find_tool one_tool (ascii "turn")) [
      | some u ↦ some u
      | none ↦
          if ltb (length one_tool.tools) max_tools && str_eq (ascii "turn") (ascii "turn")
          then some (tool_named (ascii "turn"))
          else none
    ])
find_tool-register_tool_example =
    find_tool-register_tool one_tool (tool_named (ascii "turn")) (ascii "turn")

find_tool-unregister_tool_example :
    ((name : Bytes)
      → ascii "move" ≢ name
      → find_tool (unregister_tool one_tool (some (ascii "move"))).0 name ≡ find_tool one_tool name)
    × (occurrences (unregister_tool one_tool (some (ascii "move"))).0.tools (ascii "move")
        ≡ occurrences one_tool.tools (ascii "move") - 1)
    × (occurrences one_tool.tools (ascii "move") ≤ 1
        → find_tool (unregister_tool one_tool (some (ascii "move"))).0 (ascii "move") ≡ none)
    × ((unregister_tool one_tool (some (ascii "move"))).1 ≡ (
        if ltb 0 (occurrences one_tool.tools (ascii "move"))
        then notify_tools_changed one_tool
        else []))
find_tool-unregister_tool_example = find_tool-unregister_tool one_tool (ascii "move")

abbrev some_ops : List (Op Value)
some_ops =
    registers (some move) ∷ names (some (ascii "my-app")) ∷ unregisters (some (ascii "move")) ∷ []

initial-IsBounded : IsBounded {Json = Value} initial
initial-IsBounded = record { tools_fit = omega arith; app_id_fits = omega arith }

run-IsBounded_example : IsBounded (Registry.run initial some_ops)
run-IsBounded_example = run-IsBounded some_ops initial initial-IsBounded

set_app_id_lem_example :
    (IsSlug (ascii "app-1")
      → (set_app_id one_tool (some (ascii "app-1"))).0 ≡ record one_tool { app_id = ascii "app-1" })
    × (IsSlug (ascii "app-1")
        → one_tool.app_id ≢ ascii "app-1"
        → (set_app_id one_tool (some (ascii "app-1"))).1 ≡ notify_tools_changed one_tool)
    × (one_tool.app_id ≡ ascii "app-1" → (set_app_id one_tool (some (ascii "app-1"))).1 ≡ [])
    × (¬ IsSlug (ascii "app-1") → set_app_id one_tool (some (ascii "app-1")) ≡ (one_tool, []))
set_app_id_lem_example = set_app_id_lem one_tool (ascii "app-1")

abbrev two_clients : List Event
two_clients =
    accepts 5 true ∷ shakes 0 ∷ accepts 6 true ∷ begins_write 1 ∷ ends_write 1 ∷ exits 0 ∷ []

run-IsValid_example : IsValid (Interleave.run {Json = Value} initial two_clients)
run-IsValid_example = run-IsValid two_clients initial (initial-IsValid Value)

abbrev empty_server : Server Value
empty_server = initial

accept_lem_example :
    (empty_server.active_clients ≡ max_conns → accept empty_server 5 true ≡ (empty_server, 5 ∷ []))
    × (empty_server.active_clients < max_conns
        → ((accept empty_server 5 true).1 ≡ [])
          × ((accept empty_server 5 true).0.active_clients ≡ empty_server.active_clients + 1)
          × ((accept empty_server 5 false).1 ≡ 5 ∷ [])
          × ((accept empty_server 5 false).0.active_clients ≡ empty_server.active_clients))
accept_lem_example = accept_lem empty_server 5 (initial-IsValid Value)

abbrev one_client : Server Value
one_client = record one_tool {
  thread_started = true;
  clients = record { conn = some 5; initialized = false; writing = false } ∷ free_slot ∷ [];
  active_clients = 1;
}

only_one :
    (j : ℕ) (cl : Client) → get_elem? one_client.clients j ≡ some cl → cl.conn ≡ some 5 → j ≡ 0
only_one zero cl g e = refl
only_one (suc zero) cl g e = let same : free_slot ≡ cl = cc g in absurd (cc (same, e))
only_one (suc (suc j)) cl g e = cc

notify_tools_changed-run_example :
    times 5 (
      notify_tools_changed (
        Interleave.run one_client
          (begins_write 0 ∷ accepts 6 true ∷ shakes 0 ∷ exits 1 ∷ ends_write 0 ∷ [])))
    ≡ 1
notify_tools_changed-run_example =
    notify_tools_changed-run one_client
      (begins_write 0 ∷ accepts 6 true ∷ shakes 0 ∷ exits 1 ∷ ends_write 0 ∷ []) 0 5 false false
      (record { there = refl; only = only_one }) (omega arith, (omega arith, tt))

start-stop_example :
    (start move move (stop_end (stop_listening one_tool)) true true).tools ≡ move ∷ move ∷ move ∷ []
start-stop_example = start-stop move move one_tool true true refl (omega arith)

-- A `tools/call` of `move` with the arguments `null`.
abbrev move_params : Value
move_params = Tree.object (
    Tree.member (ascii "name") (Tree.string (ascii "move"))
      (Tree.member (ascii "arguments") Tree.null Tree.end))

abbrev move_call : Value
move_call = Tree.object (
    Tree.member (ascii "id") (Tree.number (pos 3)) (
      Tree.member (ascii "method") (Tree.string (ascii "tools/call"))
        (Tree.member (ascii "params") move_params Tree.end)))

move_call-IsCall : IsCall tree move_call (Tree.number (pos 3)) (ascii "move") (some Tree.null)
unfolding str_eq
move_call-IsCall = record {
  method = Tree.string (ascii "tools/call");
  params = move_params;
  name_node = Tree.string (ascii "move");
  has_id = refl;
  has_method = refl;
  is_tools_call = refl;
  has_params = refl;
  has_name = refl;
  named = refl;
  arguments = refl;
}

handle_request_lem_example :
    (Tree.item move_call (ascii "id") ≡ none
      → handle_request tree (ascii "1") one_tool move_call true ≡ (none, true))
    × ((id : Value)
        → Tree.item move_call (ascii "id") ≡ some id
        → ((env : Value) × Answers tree id env
            × ((handle_request tree (ascii "1") one_tool move_call true).0 ≡ Tree.string_value env))
          × ((handle_request tree (ascii "1") one_tool move_call true).1
              ≡ (elim (string_value? tree (Tree.item move_call (ascii "method"))) [
                | none ↦ true
                | some method ↦ str_eq method (ascii "initialize") || true
              ])))
handle_request_lem_example = handle_request_lem tree (ascii "1") one_tool move_call true

tools_call_lem_example :
    (find_tool one_tool (ascii "move") ≡ none
      → (handle_request tree (ascii "1") one_tool move_call true).0
        ≡ Tree.string_value (
            error_envelope tree
              (some (Tree.number (pos 3)))
              method_not_found
              (ascii "tool not found")))
    × ((t : Tool Value)
        → find_tool one_tool (ascii "move") ≡ some t
        → (t.fn (some Tree.null) ≡ none
            → (handle_request tree (ascii "1") one_tool move_call true).0
              ≡ Tree.string_value (
                  error_envelope tree
                    (some (Tree.number (pos 3)))
                    server_error
                    (ascii "tool handler failed")))
          × ((inner : Value)
              → t.fn (some Tree.null) ≡ some inner
              → (result : Value) × ((handle_request tree (ascii "1") one_tool move_call true).0
                  ≡ Tree.string_value
                      (result_envelope tree (some (Tree.number (pos 3))) (some result)))
                × (Tree.item result (ascii "structured") ≡ some inner)
                × (Tree.item result (ascii "isError")
                    ≡ (if flagged tree inner then some (Tree.boolean true) else none))
                × (Tree.item result (ascii "content")
                    ≡ some (Tree.push (Tree.array Tree.nil) (payload_text tree inner)))))
tools_call_lem_example =
    tools_call_lem tree (ascii "1") one_tool move_call (Tree.number (pos 3)) (ascii "move")
      (some Tree.null) true move_call-IsCall

-- The process before anything is started.
abbrev cold : Process Value
cold = record { server = initial; ring = LogRing.initial; allowlist = Allowlist.initial }

-- A start whose thread does not start, a start, a client that comes and goes, and a stop.
abbrev a_day : List Process.Event
a_day =
    starts true false
    ∷ starts true true
    ∷ connects 5 true
    ∷ leaves 0
    ∷ stops
    ∷ starts true true
    ∷ []

events-IsReady_example : IsReady (events lp64 none (tool_named (ascii "echo")) move a_day cold)
events-IsReady_example =
    events-IsReady lp64 none (tool_named (ascii "echo")) move a_day cold
      (record { ring_started = λ h. cc; allowlist_initialized = λ h. cc })
