-- ===== src/Server/Lifecycle.antt =====
-- src/mcp_server.c: client slots, the accept loop, and the start and the stop of the server. Each
-- function below runs under `conns_mutex` from its first access to the slots to its last. Whether
-- a listener opens and a thread starts is the operating system's answer, and an argument.
pub mod Slots
pub mod Interleave
pub mod Restart
pub mod Process
use displayxr_mcp.Prelude.{
  ℕ, zero, suc, ◌+◌, ◌-◌, Bool, true, false, not, ◌&&◌, ◌||◌, Option, none, some, List, [], ◌∷◌,
  ◌++◌, length, ltb, ◌==◌, if◌then◌else◌, Bytes, get_elem?, set,
}
use displayxr_mcp.Server.{Tool, Client, free_slot, Server, register_tool, max_conns, check_env_or}

-- The first free slot of `server_thread`'s search, from slot `i` on.
pub free_index : List Client → ℕ → Option ℕ
free_index [] i = none
free_index (cl ∷ cls) i = elim cl.conn [ none ↦ some i | some c ↦ free_index cls (i + 1) ]

abbrev pub handshake : Client → Client
handshake cl = record cl { initialized = true }

abbrev pub take_write : Client → Client
take_write cl = record cl { writing = true }

abbrev pub give_write : Client → Client
give_write cl = record cl { writing = false }

-- The clients that `mcp_server_stop` aborts.
pub aborted : List Client → List ℕ
aborted [] = []
aborted (cl ∷ cls) = elim cl.conn [ none ↦ aborted cls | some c ↦ c ∷ aborted cls ]

module _ {Json : Type 0} where
  -- One round of `server_thread` with the accepted connection `c`; `spawned` is the outcome of
  -- `pthread_create`. The list holds the connections that the round closes.
  pub accept : Server Json → ℕ → Bool → Server Json × List ℕ
  unfolding free_index
  accept s c spawned = elim (free_index s.clients 0) [
    | none ↦ (s, c ∷ [])
    | some i ↦
        if spawned
        then (
          record s {
            clients = set s.clients i (record free_slot { conn = some c });
            active_clients = s.active_clients + 1;
          },
          [],
        )
        else (record s { clients = set s.clients i free_slot }, c ∷ [])
  ]

  -- The end of `client_thread` for the slot `i`. A slot without a connection has no thread, and a
  -- thread that writes does not end.
  pub client_exit : Server Json → ℕ → Server Json × List ℕ
  client_exit s i = elim (get_elem? s.clients i) [
    | none ↦ (s, [])
    | some cl ↦ elim cl.conn [
      | none ↦ (s, [])
      | some c ↦ if cl.writing then (s, []) else (
        record s { clients = set s.clients i free_slot; active_clients = s.active_clients - 1 },
        c ∷ [],
      )
    ]
  ]

  -- What the serve thread of slot `i` does to its slot: the handshake (`initialize`), and taking and
  -- giving back `write_mutex`.
  pub update_slot : Server Json → ℕ → (Client → Client) → Server Json
  update_slot s i f = elim (get_elem? s.clients i) [
    | none ↦ s
    | some cl ↦ elim cl.conn [ none ↦ s | some c ↦ record s { clients = set s.clients i (f cl) } ]
  ]

  -- `start_with_listener`
  pub start_with_listener : Server Json → Bool → Server Json
  start_with_listener s created =
      if created
      then record s { listening = true; thread_started = true }
      else record s { listening = false }

  -- The part of `register_builtins` that touches the registry, with the two built-in tools.
  pub register_builtins : Tool Json → Tool Json → Server Json → Server Json
  unfolding register_tool
  register_builtins echo tail_log s =
      (register_tool (register_tool s (some echo)).0 (some tail_log)).0

  -- `mcp_server_start`, with whether the listener opens and whether the thread starts.
  pub start : Tool Json → Tool Json → Server Json → Bool → Bool → Server Json
  unfolding register_builtins start_with_listener
  start echo tail_log s opened created =
      if s.thread_started
      then s
      else (if opened
          then start_with_listener (register_builtins echo tail_log s) created
          else register_builtins echo tail_log s)

  -- `mcp_server_start_named`; the role is `none` for NULL.
  pub start_named : Tool Json → Tool Json → Server Json → Option Bytes → Bool → Bool → Server Json
  unfolding start
  start_named echo tail_log s none opened created = s
  start_named echo tail_log s (some []) opened created = s
  start_named echo tail_log s (some (b ∷ bs)) opened created = start echo tail_log s opened created

  -- `mcp_server_maybe_start` and `mcp_server_maybe_start_named`, with DISPLAYXR_MCP's value.
  pub maybe_start : Tool Json → Tool Json → Server Json → Option Bytes → Bool → Bool → Server Json
  unfolding start check_env_or
  maybe_start echo tail_log s env opened created =
      if check_env_or env false then start echo tail_log s opened created else s

  pub maybe_start_named :
      Tool Json → Tool Json → Server Json → Option Bytes → Option Bytes → Bool → Bool → Server Json
  unfolding start_named check_env_or
  maybe_start_named echo tail_log s env role opened created =
      if check_env_or env false then start_named echo tail_log s role opened created else s

  -- The first step of `mcp_server_stop`: the listener is closed and its thread joined.
  pub stop_listening : Server Json → Server Json
  stop_listening s = if not s.thread_started then s else record s { listening = false }

  -- The last step, behind the wait for `active_clients` to be 0.
  pub stop_end : Server Json → Server Json
  stop_end s = if ltb 0 s.active_clients then s else record s { thread_started = false }
