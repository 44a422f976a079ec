-- ===== src/Aggregator/Backends.antt =====
-- adapter/workspace_aggregator.c: exposure, the teardown of a backend, the refresh of its tools,
-- its reader's handling of a message, and its registration. Whether a write to a connection
-- succeeds and whether a thread starts are answers of the operating system, and arguments.
use displayxr_mcp.Prelude.{
  ℕ, ◌+◌, Bool, true, false, not, ◌||◌, Option, none, some, List, [], ◌∷◌, ◌++◌, take, ◌==◌,
  if◌then◌else◌, Bytes, ascii, str_eq, get_elem?, set,
}
use displayxr_mcp.Json.{pos, Cjson}
use displayxr_mcp.Server.Rpc.{item?, string_value?, error_envelope, server_error}
use displayxr_mcp.Aggregator.{
  Backend, agent, tools_refresh, Inflight, Aggregator, Output, to_agent, list_changed, to_backend,
  close,
}
use displayxr_mcp.Aggregator.Prefix.{slugify, assign_prefix, exe_basename}
use displayxr_mcp.Aggregator.Ids.{alloc, find, release}

module _ {Json : Type 0} where
  -- The used slot `idx`.
  unfoldable pub backend_at : Aggregator Json → ℕ → Option (Backend Json)
  backend_at g idx = elim (get_elem? g.backends idx) [ none ↦ none | some slot ↦ slot ]

  unfoldable pub put_backend : Aggregator Json → ℕ → Option (Backend Json) → Aggregator Json
  put_backend g idx b = record g { backends = set g.backends idx b }

  -- `emit_list_changed_upstream`
  pub emit_list_changed : Aggregator Json → List (Output Json)
  emit_list_changed g = if g.agent_initialized then list_changed ∷ [] else []

module _ (J : Cjson) where
  open J use {
    Json, object, array, string, number, add, replace, item, string_value, number_value, is_array,
  }

  -- `tool_group`
  pub tool_group : Json → Bytes
  tool_group t =
      elim (string_value? J (item? J (item t (ascii "_meta")) (ascii "displayxr/group"))) [
        | some group ↦ group
        | none ↦ elim (string_value? J (item t (ascii "name"))) [
          | none ↦ ascii "diagnostic"
          | some name ↦
              if str_eq name (ascii "capture_frame") then ascii "capture" else ascii "diagnostic"
        ]
      ]

  -- `tool_exposed`
  pub tool_exposed : Bool → Json → Bool
  unfolding tool_group
  tool_exposed expose_diagnostics t =
      expose_diagnostics || not (str_eq (tool_group t) (ascii "diagnostic"))

  unfoldable pub exit_error : Option Json → Output Json
  exit_error orig =
      to_agent (error_envelope J orig server_error (ascii "backend exited with the call in flight"))

  -- The loop of `backend_teardown_locked`.
  unfoldable pub fail_calls :
      ℕ → List (Option (Inflight Json)) → List (Option (Inflight Json)) × List (Output Json)
  unfolding exit_error
  fail_calls idx [] = ([], [])
  fail_calls idx (none ∷ sl) = let (sl', out) = fail_calls idx sl in (none ∷ sl', out)
  fail_calls idx (some e ∷ sl) =
      let (sl', out) = fail_calls idx sl in
      if e.backend == idx
      then (none ∷ sl', elim e.kind [ agent ↦ exit_error e.orig_id ∷ out | tools_refresh ↦ out ])
      else (some e ∷ sl', out)

  -- `backend_teardown_locked`
  unfoldable pub teardown : Aggregator Json → ℕ → Aggregator Json × List (Output Json)
  teardown g idx =
      let (sl, out) = fail_calls idx g.inflight in
      (
        record g { inflight = sl; backends = set g.backends idx none },
        out ++ (elim (backend_at g idx) [ none ↦ [] | some b ↦ close b.conn ∷ [] ]),
      )

  -- The end of `backend_reader`.
  pub reader_exit : Aggregator Json → ℕ → Aggregator Json × List (Output Json)
  unfolding teardown
  reader_exit g idx = let (g', out) = teardown g idx in (g', out ++ emit_list_changed g')

  -- The internal `tools/list` request.
  pub refresh_request : ℕ → Json
  refresh_request id =
      add (add (add object (ascii "jsonrpc") (string (ascii "2.0"))) (ascii "id") (number (pos id)))
        (ascii "method") (string (ascii "tools/list"))

  -- `refresh_backend_tools`
  pub refresh_tools : (ℕ → Bool) → Aggregator Json → ℕ → Aggregator Json × List (Output Json)
  unfolding refresh_request
  refresh_tools writes g idx = elim (backend_at g idx) [
    | none ↦ (g, [])
    | some b ↦ if not b.alive then (g, []) else (elim (alloc g idx tools_refresh none) [
      | none ↦ (g, [])
      | some g' ↦ (
        if writes b.conn then g' else record g' { inflight = release g'.inflight g'.next_local_id },
        to_backend b.conn (refresh_request g'.next_local_id) ∷ [],
      )
    ])
  ]

  -- A cached tools array: a copy of an array, else an empty one.
  pub tools_of : Option Json → Json
  tools_of none = array
  tools_of (some t) = if is_array t then t else array

  -- The re-prefixing of `apply_tools_result`: `app_id` is kept in 33 bytes, the slug in 40.
  pub reprefix : Aggregator Json → ℕ → Backend Json → Bytes → Aggregator Json
  reprefix g idx b app_id =
      if str_eq b.app_id app_id
      then put_backend g idx (some b)
      else (let (prefix, used) = assign_prefix g.used_prefixes (slugify 40 (take 32 app_id)) in
          record (put_backend g idx
            (some (record b { app_id = take 32 app_id; prefix = prefix }))) {
              used_prefixes = used;
            })

  -- `apply_tools_result`: the new state, and whether to tell the agent.
  pub apply_tools_result : Aggregator Json → ℕ → Json → Aggregator Json × Bool
  unfolding tools_of reprefix
  apply_tools_result g idx result = elim (backend_at g idx) [
    | none ↦ (g, false)
    | some b ↦
        let b' = record b { tools = some (tools_of (item result (ascii "tools"))) } in
        let app_id =
          string_value? J (item? J (item result (ascii "_meta")) (ascii "displayxr/appId")) in
        (
          if b.is_shell then put_backend g idx (some b') else (elim app_id [
            | none ↦ put_backend g idx (some b')
            | some a ↦ reprefix g idx b' a
          ]),
          true,
        )
  ]

  -- The end of `backend_reader`'s handling of a response, with the entry that was released for it.
  unfoldable pub deliver :
      Aggregator Json → ℕ → Json → Inflight Json → Aggregator Json × List (Output Json)
  unfolding apply_tools_result
  deliver g idx msg e = if not (e.backend == idx) then (g, []) else (elim e.kind [
    | tools_refresh ↦ elim (item msg (ascii "result")) [
      | none ↦ (g, [])
      | some result ↦
          let (g', changed) = apply_tools_result g idx result in
          (g', if changed then emit_list_changed g' else [])
    ]
    | agent ↦ elim e.orig_id [
      | none ↦ (g, to_agent msg ∷ [])
      | some orig ↦ (g, to_agent (replace msg (ascii "id") orig) ∷ [])
    ]
  ])

  -- A response with the number `id`: its entry is found and released, whoever it belongs to.
  unfoldable pub on_response : Aggregator Json → ℕ → Json → ℕ → Aggregator Json × List (Output Json)
  unfolding deliver
  on_response g idx msg id = elim (find g.inflight id) [
    | none ↦ (g, [])
    | some e ↦ deliver (record g { inflight = release g.inflight id }) idx msg e
  ]

  -- One message of `backend_reader`, once it is parsed.
  unfoldable pub on_message :
      (ℕ → Bool) → Aggregator Json → ℕ → Json → Aggregator Json × List (Output Json)
  unfolding refresh_tools on_response
  on_message writes g idx msg = elim (item msg (ascii "id")) [
    | none ↦ elim (string_value? J (item msg (ascii "method"))) [
      | none ↦ (g, [])
      | some method ↦
          if str_eq method (ascii "notifications/tools/list_changed")
          then refresh_tools writes g idx
          else (g, [])
    ]
    | some id ↦ elim (number_value id) [ none ↦ (g, []) | some n ↦ on_response g idx msg n ]
  ]

  -- The first slot whose `used` is false, from slot `i` on.
  unfoldable pub free_backend : List (Option (Backend Json)) → ℕ → Option ℕ
  free_backend [] i = none
  free_backend (none ∷ bs) i = some i
  free_backend (some b ∷ bs) i = free_backend bs (i + 1)

  -- The slug that `backend_setup` asks for: the app id's, else the executable's, else "app".
  pub desired_prefix : Bytes → Bytes → Bytes
  desired_prefix app_id path =
      if not (str_eq app_id [])
      then slugify 40 app_id
      else (if not (str_eq (exe_basename 64 path) [])
          then slugify 40 (exe_basename 64 path)
          else ascii "app")

  -- The prefix of a new backend, and the registry after it; the shell's is fixed and not reserved.
  pub setup_prefix : List Bytes → Bool → Bytes → Bytes → Bytes × List Bytes
  unfolding desired_prefix
  setup_prefix used true app_id path = (ascii "shell", used)
  setup_prefix used false app_id path = assign_prefix used (desired_prefix app_id path)

  -- The registration in `backend_setup`, behind the handshake: the slot taken, if any.
  unfoldable pub register_backend :
      Aggregator Json
      → Bool
      → ℕ
      → ℕ
      → Bytes
      → Option Json
      → Bytes
      → Bool
      → Aggregator Json × List (Output Json)
  unfolding free_backend setup_prefix
  register_backend g is_shell pid conn app_id tools path spawned =
      elim (free_backend g.backends 0) [
        | none ↦ (g, close conn ∷ [])
        | some idx ↦
            let (prefix, used) = setup_prefix g.used_prefixes is_shell app_id path in
            let b : Backend Json = record {
              alive = true;
              is_shell = is_shell;
              pid = pid;
              prefix = prefix;
              app_id = app_id;
              conn = conn;
              tools = some (tools_of tools);
            } in
            let g' = record (put_backend g idx (some b)) { used_prefixes = used } in
            if spawned then (g', emit_list_changed g') else teardown g' idx
      ]
