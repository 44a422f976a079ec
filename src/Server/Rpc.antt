-- ===== src/Server/Rpc.antt =====
-- src/mcp_server.c: JSON-RPC replies, the built-in tools, and the dispatch of a request, over the
-- cJSON interface. `cJSON_GetObjectItemCaseSensitive` of a NULL node is NULL.
pub mod Envelope
pub mod Dispatch
pub mod Calls
use displayxr_mcp.Prelude.{
  ℕ, zero, suc, Bool, true, false, not, ◌&&◌, ◌||◌, Option, none, some, List, [], ◌∷◌, ◌++◌, length,
  ltb, ◌==◌, if◌then◌else◌, Bytes, ascii, str_eq,
}
use displayxr_mcp.Json.{Number, pos, neg, Cjson}
use displayxr_mcp.LogRing
use displayxr_mcp.LogRing.{LogRing, Level, Entry, Batch}
use displayxr_mcp.Server.{Tool, Server, find_tool, group_name, diagnostic}

-- The error codes of JSON-RPC that the server sends.
abbrev pub invalid_request : Number
invalid_request = neg 32600

abbrev pub method_not_found : Number
method_not_found = neg 32601

abbrev pub invalid_params : Number
invalid_params = neg 32602

abbrev pub server_error : Number
server_error = neg 32000

abbrev pub parse_error : Number
parse_error = neg 32700

-- `level_names`
pub level_name : Level → Bytes
level_name Level.trace = ascii "trace"
level_name Level.debug = ascii "debug"
level_name Level.info = ascii "info"
level_name Level.warn = ascii "warn"
level_name Level.error = ascii "error"
level_name Level.raw = ascii "raw"

module _ (J : Cjson) where
  open J use {
    Json, parse, print, object, array, null, boolean, string, number, add, push, item, string_value,
    number_value, positive_upto, is_object, is_true,
  }

  -- `jsonrpc_envelope`; `none` is a NULL id.
  pub jsonrpc_envelope : Option Json → Json
  jsonrpc_envelope none = add object (ascii "jsonrpc") (string (ascii "2.0"))
  jsonrpc_envelope (some id) =
      add (add object (ascii "jsonrpc") (string (ascii "2.0"))) (ascii "id") id

  -- `jsonrpc_result` before it is printed; `none` is a NULL result.
  pub result_envelope : Option Json → Option Json → Json
  unfolding jsonrpc_envelope
  result_envelope id none = add (jsonrpc_envelope id) (ascii "result") object
  result_envelope id (some r) = add (jsonrpc_envelope id) (ascii "result") r

  -- `jsonrpc_error` before it is printed.
  pub error_envelope : Option Json → Number → Bytes → Json
  unfolding jsonrpc_envelope
  error_envelope id code message =
      add (jsonrpc_envelope id) (ascii "error")
        (add (add object (ascii "code") (number code)) (ascii "message") (string message))

  -- The lookup in a node that may be NULL.
  pub item? : Option Json → Bytes → Option Json
  item? none k = none
  item? (some o) k = item o k

  pub string_value? : Option Json → Option Bytes
  string_value? none = none
  string_value? (some o) = string_value o

  add_string? : Json → Bytes → Option Bytes → Json
  add_string? o k none = o
  add_string? o k (some s) = add o k (string s)

  add_schema? : Json → Option Bytes → Json
  add_schema? o none = o
  add_schema? o (some s) = elim (parse s) [
    | none ↦ o
    | some schema ↦ add o (ascii "inputSchema") schema
  ]

  -- One entry of `build_tools_list`.
  pub tool_entry : Tool Json → Json
  unfolding add_string? add_schema?
  tool_entry t =
      add
        (add_schema?
          (add_string? (add object (ascii "name") (string t.name)) (ascii "description")
            t.description)
          t.input_schema_json)
        (ascii "_meta") (add object (ascii "displayxr/group") (string (group_name t.group)))

  pub push_entries : Json → List (Tool Json) → Json
  unfolding tool_entry
  push_entries arr [] = arr
  push_entries arr (t ∷ ts) = push_entries (push arr (tool_entry t)) ts

  -- `build_tools_list`
  pub build_tools_list : Server Json → Json
  unfolding push_entries
  build_tools_list s = push_entries array s.tools

  abbrev nonempty : Bytes → Bool
  nonempty [] = false
  nonempty (c ∷ cs) = true

  -- The result of `initialize`; `version` is DISPLAYXR_MCP_VERSION.
  pub initialize_result : Bytes → Server Json → Json
  initialize_result version s =
      let tools_cap = add object (ascii "listChanged") (boolean true) in
      let caps = add object (ascii "tools") tools_cap in
      let info =
        add (add object (ascii "name") (string (ascii "displayxr-mcp"))) (ascii "version")
          (string version) in
      add
        (add (add object (ascii "protocolVersion") (string (ascii "2024-11-05")))
          (ascii "capabilities") caps)
        (ascii "serverInfo")
        (if nonempty s.app_id then add info (ascii "appId") (string s.app_id) else info)

  -- The result of `tools/list`.
  pub tools_list_result : Server Json → Json
  unfolding build_tools_list
  tools_list_result s =
      let result = add object (ascii "tools") (build_tools_list s) in
      if nonempty s.app_id
      then add result (ascii "_meta") (add object (ascii "displayxr/appId") (string s.app_id))
      else result

  pub is_true? : Option Json → Bool
  is_true? none = false
  is_true? (some v) = is_true v

  pub or_empty : Option Bytes → Bytes
  or_empty none = []
  or_empty (some s) = s

  -- The result that wraps what a handler returned.
  pub call_result : Json → Json
  unfolding is_true? or_empty
  call_result inner =
      let text =
        add (add object (ascii "type") (string (ascii "text"))) (ascii "text")
          (string (or_empty (print inner))) in
      let result = add object (ascii "content") (push array text) in
      let failed = is_object inner && is_true? (item inner (ascii "isError")) in
      add (if failed then add result (ascii "isError") (boolean true) else result)
        (ascii "structured") inner

  -- The `tools/call` branch of `handle_request`, as the envelope of the reply.
  pub call_envelope : Server Json → Json → Option Json → Json
  unfolding item? string_value? call_result result_envelope error_envelope
  call_envelope s id params = elim (string_value? (item? params (ascii "name"))) [
    | none ↦ error_envelope (some id) invalid_params (ascii "tools/call: missing string 'name'")
    | some name ↦ elim (find_tool s name) [
      | none ↦ error_envelope (some id) method_not_found (ascii "tool not found")
      | some tool ↦ elim (tool.fn (item? params (ascii "arguments"))) [
        | none ↦ error_envelope (some id) server_error (ascii "tool handler failed")
        | some inner ↦ result_envelope (some id) (some (call_result inner))
      ]
    ]
  ]

  -- The branches of `handle_request` on the method of a request that has an id: the envelope of the
  -- reply.
  pub method_envelope : Bytes → Server Json → Bytes → Json → Option Json → Json
  unfolding initialize_result tools_list_result call_envelope
  method_envelope version s method id params =
      if str_eq method (ascii "initialize")
      then result_envelope (some id) (some (initialize_result version s))
      else (if str_eq method (ascii "ping")
          then result_envelope (some id) (some object)
          else (if str_eq method (ascii "tools/list")
              then result_envelope (some id) (some (tools_list_result s))
              else (if str_eq method (ascii "tools/call")
                  then call_envelope s id params
                  else error_envelope (some id) method_not_found (ascii "method not found"))))

  -- `handle_request`: the reply, if any, and the client's `initialized` flag after it. The printed
  -- text is NULL where `cJSON_PrintUnformatted` fails.
  pub handle_request : Bytes → Server Json → Json → Bool → Option Bytes × Bool
  unfolding method_envelope
  handle_request version s req initialized = elim (item req (ascii "id")) [
    | none ↦ (none, initialized)
    | some id ↦ elim (string_value? (item req (ascii "method"))) [
      | none ↦ (
        print (error_envelope (some id) invalid_request (ascii "invalid request: missing method")),
        initialized,
      )
      | some method ↦ (
        print (method_envelope version s method id (item req (ascii "params"))),
        if str_eq method (ascii "initialize") then true else initialized,
      )
    ]
  ]

  -- One round of `serve` behind `read_frame`: the reply to a body, and the flag.
  pub serve_body : Bytes → Server Json → Bytes → Bool → Option Bytes × Bool
  unfolding handle_request
  serve_body version s body initialized = elim (parse body) [
    | none ↦ (print (error_envelope none parse_error (ascii "parse error")), initialized)
    | some req ↦ handle_request version s req initialized
  ]

  -- `tool_echo`
  pub tool_echo : Option Json → Option Json
  tool_echo none = some (add object (ascii "echo") null)
  tool_echo (some params) = some (add object (ascii "echo") params)

  number_or : Option Json → ℕ → ℕ
  number_or none d = d
  number_or (some v) d = elim (number_value v) [ none ↦ d | some n ↦ n ]

  max_or : Option Json → ℕ → ℕ
  max_or none d = d
  max_or (some v) d = elim (number_value v) [
    | none ↦ d
    | some n ↦ if positive_upto 1024 v then n else d
  ]

  pub entry_node : Entry → Json
  unfolding level_name
  entry_node e =
      add
        (add
          (add (add object (ascii "seq") (number (pos e.seq))) (ascii "ts_ns")
            (number (pos e.timestamp_ns)))
          (ascii "level") (string (level_name e.level)))
        (ascii "text") (string e.text)

  push_lines : Json → List Entry → Json
  unfolding entry_node
  push_lines arr [] = arr
  push_lines arr (e ∷ es) = push_lines (push arr (entry_node e)) es

  -- `tool_tail_log`
  pub tool_tail_log : LogRing → Option Json → Option Json
  unfolding number_or max_or push_lines
  tool_tail_log ring params =
      let since = number_or (item? params (ascii "since")) 0 in
      let room = max_or (item? params (ascii "max")) 128 in
      let batch = LogRing.read ring since room in
      some (
        add
          (add (add object (ascii "cursor") (number (pos batch.next_cursor))) (ascii "dropped")
            (number (pos batch.dropped)))
          (ascii "entries") (push_lines array batch.entries))

  -- ECHO_TOOL and TAIL_LOG_TOOL, which leave their group at 0. The descriptions and schemas are
  -- their literal texts, of which nothing is computed.
  pub echo_tool : Option Bytes → Option Bytes → Tool Json
  unfolding tool_echo
  echo_tool description schema = record {
    name = ascii "echo";
    description = description;
    input_schema_json = schema;
    fn = tool_echo;
    group = diagnostic;
  }

  pub tail_log_tool : LogRing → Option Bytes → Option Bytes → Tool Json
  unfolding tool_tail_log
  tail_log_tool ring description schema = record {
    name = ascii "tail_log";
    description = description;
    input_schema_json = schema;
    fn = tool_tail_log ring;
    group = diagnostic;
  }
