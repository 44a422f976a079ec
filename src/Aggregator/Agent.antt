-- ===== src/Aggregator/Agent.antt =====
-- adapter/workspace_aggregator.c: the agent's side, from a message of the agent to what is sent.
use displayxr_mcp.Prelude.{
  ℕ, suc, ◌+◌, Bool, true, false, not, ◌&&◌, ◌||◌, Option, none, some, List, [], ◌∷◌, if◌then◌else◌,
  Bytes, ascii, str_eq,
}
use displayxr_mcp.Json.{Number, pos, Cjson}
use displayxr_mcp.Server.Rpc.{
  item?, string_value?, error_envelope, result_envelope, server_error, invalid_params,
  method_not_found, parse_error, or_empty,
}
use displayxr_mcp.Aggregator.{Backend, agent, Aggregator, Output, to_agent, to_backend}
use displayxr_mcp.Aggregator.Ids.{alloc, release}
use displayxr_mcp.Aggregator.Name.{split_name, prefixed}
use displayxr_mcp.Aggregator.Backends.{tool_exposed}

module _ {Json : Type 0} where
  -- The search of `handle_tools_call`: the first backend that is alive under the prefix, with its
  -- index, from slot `i` on.
  unfoldable pub route : List (Option (Backend Json)) → ℕ → Bytes → Option (ℕ × Backend Json)
  route [] i prefix = none
  route (none ∷ bs) i prefix = route bs (i + 1) prefix
  route (some b ∷ bs) i prefix =
      if b.alive && str_eq b.prefix prefix then some (i, b) else route bs (i + 1) prefix

  -- Is a shell among the backends that are alive?
  pub shell_running : List (Option (Backend Json)) → Bool
  shell_running [] = false
  shell_running (none ∷ bs) = shell_running bs
  shell_running (some b ∷ bs) = if b.alive && b.is_shell then true else shell_running bs

module _ (J : Cjson) where
  open J use {
    Json, parse, print, object, array, boolean, string, number, add, push, replace, item, elements,
    string_value,
  }

  pub elements? : Option Json → List Json
  elements? none = []
  elements? (some a) = elements a

  -- The two counts of `build_list_apps`.
  pub count_exposed : Bool → List Json → ℕ
  count_exposed expose [] = 0
  count_exposed expose (t ∷ ts) =
      if tool_exposed J expose t then suc (count_exposed expose ts) else count_exposed expose ts

  pub count_tools : List Json → ℕ
  count_tools [] = 0
  count_tools (t ∷ ts) = suc (count_tools ts)

  app_node : Bool → Backend Json → Json
  unfolding elements? count_exposed count_tools
  app_node expose b =
      let base =
        add (add object (ascii "prefix") (string b.prefix)) (ascii "pid") (number (pos b.pid)) in
      let named =
        if str_eq b.app_id [] then base else add base (ascii "app_id") (string b.app_id) in
      add
        (add named (ascii "tools_exposed")
          (number (pos (count_exposed expose (elements? b.tools)))))
        (ascii "tools_total") (number (pos (count_tools (elements? b.tools))))

  pub push_apps : Bool → Json → List (Option (Backend Json)) → Json
  unfolding app_node
  push_apps expose arr [] = arr
  push_apps expose arr (none ∷ bs) = push_apps expose arr bs
  push_apps expose arr (some b ∷ bs) =
      push_apps expose (if not b.alive || b.is_shell then arr else push arr (app_node expose b)) bs

  -- `build_list_apps`
  pub build_list_apps : Aggregator Json → Json
  unfolding push_apps shell_running
  build_list_apps g =
      add
        (add (add object (ascii "apps") (push_apps g.expose_diagnostics array g.backends))
          (ascii "shell")
          (string (if shell_running g.backends then ascii "running" else ascii "not_running")))
        (ascii "diagnostics_exposed") (boolean g.expose_diagnostics)

  -- `wrap_tool_result`
  pub wrap_tool_result : Json → Json
  wrap_tool_result inner =
      add
        (add object (ascii "content") (
          push array (
            add (add object (ascii "type") (string (ascii "text"))) (ascii "text")
              (string (or_empty J (print inner))))))
        (ascii "structured") inner

  -- One merged entry: the backend's entry under its prefixed name, with its source in `_meta`. A
  -- `_meta` that the entry has is extended in place.
  pub merged_entry : Bytes → Json → Bytes → Json
  merged_entry prefix t name =
      let e = replace t (ascii "name") (string (prefixed prefix name)) in
      elim (item e (ascii "_meta")) [
        | none ↦ add e (ascii "_meta") (add object (ascii "displayxr/source") (string prefix))
        | some meta ↦
            replace e (ascii "_meta") (add meta (ascii "displayxr/source") (string prefix))
      ]

  -- The tools of one backend that are exposed and have a name.
  pub push_tools : Bool → Bytes → Json → List Json → Json
  unfolding merged_entry
  push_tools expose prefix arr [] = arr
  push_tools expose prefix arr (t ∷ ts) =
      push_tools expose prefix
        (if not (tool_exposed J expose t)
          then arr
          else (elim (string_value? J (item t (ascii "name"))) [
            | none ↦ arr
            | some name ↦ push arr (merged_entry prefix t name)
          ]))
        ts

  pub push_backends : Bool → Json → List (Option (Backend Json)) → Json
  unfolding push_tools elements?
  push_backends expose arr [] = arr
  push_backends expose arr (none ∷ bs) = push_backends expose arr bs
  push_backends expose arr (some b ∷ bs) =
      push_backends expose
        (if b.alive then push_tools expose b.prefix arr (elements? b.tools) else arr) bs

  -- The aggregator's own tool, with its literal description.
  pub meta_tool : Bytes → Json
  meta_tool description =
      add
        (add (add object (ascii "name") (string (ascii "workspace__list_apps")))
          (ascii "description") (string description))
        (ascii "inputSchema") (add object (ascii "type") (string (ascii "object")))

  -- `build_merged_tools`
  pub build_merged_tools : Bytes → Aggregator Json → Json
  unfolding push_backends meta_tool
  build_merged_tools description g =
      push_backends g.expose_diagnostics (push array (meta_tool description)) g.backends

  -- The request that is forwarded to a backend.
  pub forward_request : ℕ → Bytes → Option Json → Json
  forward_request local_id bare args =
      let named = add object (ascii "name") (string bare) in
      add
        (add
          (add (add object (ascii "jsonrpc") (string (ascii "2.0"))) (ascii "id")
            (number (pos local_id)))
          (ascii "method") (string (ascii "tools/call")))
        (ascii "params") (elim args [ none ↦ named | some a ↦ add named (ascii "arguments") a ])

  unfoldable pub refuse : Json → Number → Bytes → Output Json
  refuse id code message = to_agent (error_envelope J (some id) code message)

  -- The part of `handle_tools_call` behind the search for the backend.
  unfoldable pub forward :
      (ℕ → Bool)
      → Aggregator Json
      → Json
      → Bytes
      → Option Json
      → ℕ
      → Backend Json
      → Aggregator Json × List (Output Json)
  unfolding forward_request refuse
  forward writes g id bare args idx b = elim (alloc g idx agent (some id)) [
    | none ↦ (g, refuse id server_error (ascii "too many calls in flight") ∷ [])
    | some g' ↦
        let sent = to_backend b.conn (forward_request g'.next_local_id bare args) in
        if writes b.conn then (g', sent ∷ []) else (
          record g' { inflight = release g'.inflight g'.next_local_id },
          sent ∷ refuse id server_error (ascii "backend write failed") ∷ [],
        )
  ]

  -- `handle_tools_call` from the tool's full name on.
  unfoldable pub call_named :
      (ℕ → Bool)
      → Aggregator Json
      → Json
      → Option Json
      → Bytes
      → Aggregator Json × List (Output Json)
  unfolding forward refuse route
  call_named writes g id params full =
      if str_eq full (ascii "workspace__list_apps")
      then (
        g,
        to_agent (result_envelope J (some id) (some (wrap_tool_result (build_list_apps g)))) ∷ [],
      )
      else (elim (split_name full) [
        | none ↦ (
          g,
          refuse id method_not_found (ascii "tool not found (expected <prefix>__<tool>)") ∷ [],
        )
        | some (prefix, bare) ↦ elim (route g.backends 0 prefix) [
          | none ↦
              (g, refuse id method_not_found (ascii "tool not found (no such app prefix)") ∷ [])
          | some (idx, b) ↦ forward writes g id bare (item? J params (ascii "arguments")) idx b
        ]
      ])

  -- `handle_tools_call`
  unfoldable pub handle_tools_call :
      (ℕ → Bool) → Aggregator Json → Json → Option Json → Aggregator Json × List (Output Json)
  unfolding call_named
  handle_tools_call writes g id params = elim (string_value? J (item? J params (ascii "name"))) [
    | none ↦ (g, refuse id invalid_params (ascii "tools/call: missing string 'name'") ∷ [])
    | some full ↦ call_named writes g id params full
  ]

  -- The result of `initialize`; `version` is DISPLAYXR_MCP_VERSION.
  pub initialize_result : Bytes → Json
  initialize_result version =
      add
        (add (add object (ascii "protocolVersion") (string (ascii "2024-11-05")))
          (ascii "capabilities")
          (add object (ascii "tools") (add object (ascii "listChanged") (boolean true))))
        (ascii "serverInfo")
        (add (add object (ascii "name") (string (ascii "displayxr-mcp-workspace")))
          (ascii "version") (string version))

  -- The branches of `handle_agent_frame` for a request with an id.
  pub on_method :
      (ℕ → Bool)
      → Bytes
      → Bytes
      → Aggregator Json
      → Json
      → Option Json
      → Bytes
      → Aggregator Json × List (Output Json)
  unfolding initialize_result handle_tools_call
  on_method writes version description g id params method =
      if str_eq method (ascii "initialize")
      then (
        record g { agent_initialized = true },
        to_agent (result_envelope J (some id) (some (initialize_result version))) ∷ [],
      )
      else (if str_eq method (ascii "ping")
          then (g, to_agent (result_envelope J (some id) none) ∷ [])
          else (if str_eq method (ascii "tools/list")
              then (
                g,
                to_agent (
                      result_envelope J (some id)
                        (some (add object (ascii "tools") (build_merged_tools description g))))
                    ∷ [],
              )
              else (if str_eq method (ascii "tools/call")
                  then handle_tools_call writes g id params
                  else (g, refuse id method_not_found (ascii "method not found") ∷ []))))

  -- `handle_agent_frame`
  pub handle_agent_frame :
      (ℕ → Bool) → Bytes → Bytes → Aggregator Json → Bytes → Aggregator Json × List (Output Json)
  unfolding on_method
  handle_agent_frame writes version description g body = elim (parse body) [
    | none ↦ (g, to_agent (error_envelope J none parse_error (ascii "parse error")) ∷ [])
    | some req ↦ elim (string_value? J (item req (ascii "method"))) [
      | none ↦ (g, [])
      | some method ↦ elim (item req (ascii "id")) [
        | none ↦ (g, [])
        | some id ↦ on_method writes version description g id (item req (ascii "params")) method
      ]
    ]
  ]
