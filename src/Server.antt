-- ===== src/Server.antt =====
-- src/mcp_server.c: the state of the server and its tool registry. The handler of a tool is the
-- embedder's code, so it is a field of the tool, a function of the arguments (`none` is NULL, both
-- for missing arguments and for a failed call). Each function holds `tools_mutex` over its accesses
-- to the registry, and is one atomic step on it.
pub mod Registry
pub mod AppId
pub mod Lifecycle
pub mod Rpc
mod Tests
use displayxr_mcp.Prelude.{
  ℕ, zero, suc, ◌+◌, ◌-◌, Bool, true, false, not, ◌&&◌, ◌||◌, Option, none, some, List, [], ◌∷◌,
  ◌++◌, length, take, replicate, ltb, leb, ◌==◌, if◌then◌else◌, Bytes, ascii, str_eq,
}

-- MAX_TOOLS, MAX_CONNS
abbrev pub max_tools : ℕ
max_tools = 64

abbrev pub max_conns : ℕ
max_conns = 8

-- `enum mcp_tool_group`
pub data Group : Type 0 where
  diagnostic app workspace capture : Group

-- `struct mcp_tool` with the members that are not NULL; `fn` has taken its `userdata`.
pub record Tool (Json : Type 0) : Type 0 where
  pub name : Bytes
  pub description : Option Bytes
  pub input_schema_json : Option Bytes
  pub fn : Option Json → Option Json
  pub group : Group

-- `struct mcp_client`: `conn` is `none` for a free slot, and `writing` says that the slot's serve
-- thread holds `write_mutex`.
pub record Client : Type 0 where
  pub conn : Option ℕ
  pub initialized : Bool
  pub writing : Bool

abbrev pub free_slot : Client
free_slot = record { conn = none; initialized = false; writing = false }

-- `struct mcp_server`. `listening` says that `listener` is not NULL.
pub record Server (Json : Type 0) : Type 0 where
  pub thread_started : Bool
  pub listening : Bool
  pub tools : List (Tool Json)
  pub app_id : Bytes
  pub clients : List Client
  pub active_clients : ℕ

-- `g_server`
abbrev pub initial : {Json : Type 0} → Server Json
initial = record {
  thread_started = false;
  listening = false;
  tools = [];
  app_id = [];
  clients = replicate max_conns free_slot;
  active_clients = 0;
}

-- `broadcast_notification`: the connections that the frame is offered to, in slot order. A slot
-- whose `write_mutex` is taken is skipped (`pthread_mutex_trylock`).
pub broadcast : List Client → List ℕ
broadcast [] = []
broadcast (cl ∷ cls) = elim cl.conn [
  | none ↦ broadcast cls
  | some c ↦ if not cl.initialized || cl.writing then broadcast cls else c ∷ broadcast cls
]

module _ {Json : Type 0} where
  -- `notify_tools_changed`
  pub notify_tools_changed : Server Json → List ℕ
  notify_tools_changed s = if not s.thread_started then [] else broadcast s.clients

  find : List (Tool Json) → Bytes → Option (Tool Json)
  find [] name = none
  find (t ∷ ts) name = if str_eq t.name name then some t else find ts name

  -- `find_tool`
  pub find_tool : Server Json → Bytes → Option (Tool Json)
  unfolding find
  find_tool s name = find s.tools name

  -- `mcp_server_register_tool`, with the connections that are notified. `none` stands for NULL and
  -- for a tool without a name or a handler.
  pub register_tool : Server Json → Option (Tool Json) → Server Json × List ℕ
  register_tool s none = (s, [])
  register_tool s (some t) =
      if ltb (length s.tools) max_tools
      then (record s { tools = s.tools ++ (t ∷ []) }, notify_tools_changed s)
      else (s, [])

  -- The loop of `mcp_server_unregister_tool`: the tools without the first of that name, and whether
  -- there was one.
  remove : List (Tool Json) → Bytes → List (Tool Json) × Bool
  remove [] name = ([], false)
  remove (t ∷ ts) name =
      let (rest, removed) = remove ts name in
      if str_eq t.name name then (ts, true) else (t ∷ rest, removed)

  -- `mcp_server_unregister_tool`
  pub unregister_tool : Server Json → Option Bytes → Server Json × List ℕ
  unfolding remove
  unregister_tool s none = (s, [])
  unregister_tool s (some name) =
      let (ts, removed) = remove s.tools name in
      (record s { tools = ts }, if removed then notify_tools_changed s else [])

abbrev pub is_alnum : ℕ → Bool
is_alnum c = (leb b'a' c && leb c b'z') || (leb b'0' c && leb c b'9')

-- The loop of `app_id_valid` past the first byte.
pub valid_tail : Bytes → Bool
valid_tail [] = true
valid_tail (c ∷ cs) = if not (is_alnum c || c == b'-') then false else valid_tail cs

-- `app_id_valid`; `none` is NULL.
pub app_id_valid : Option Bytes → Bool
unfolding valid_tail
app_id_valid none = false
app_id_valid (some []) = false
app_id_valid (some (c ∷ cs)) =
    if ltb 32 (length (c ∷ cs)) then false else (if not (is_alnum c) then false else valid_tail cs)

-- `mcp_server_set_app_id`: `snprintf` keeps what fits `char app_id[33]`.
pub set_app_id : {Json : Type 0} → Server Json → Option Bytes → Server Json × List ℕ
set_app_id s none = (s, [])
set_app_id s (some id) =
    if not (app_id_valid (some id))
    then (s, [])
    else (if str_eq s.app_id id
        then (s, [])
        else (record s { app_id = take 32 id }, notify_tools_changed s))

-- `mcp_check_env_or`; `none` is an unset variable.
pub check_env_or : Option Bytes → Bool → Bool
check_env_or none fallback = fallback
check_env_or (some []) fallback = false
check_env_or (some (c ∷ cs)) fallback = if c == b'0' then false else true

-- `group_name`
pub group_name : Group → Bytes
group_name app = ascii "app"
group_name workspace = ascii "workspace"
group_name capture = ascii "capture"
group_name diagnostic = ascii "diagnostic"
