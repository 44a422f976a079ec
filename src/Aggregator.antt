-- ===== src/Aggregator.antt =====
-- adapter/workspace_aggregator.c: the state of `--target workspace`, which merges several MCP
-- backends behind one agent connection. The state is what `g.lock` guards; a function that holds
-- the lock over its accesses is one atomic step. A slot whose `used` is false is `none`.
pub mod Prefix
pub mod Ids
pub mod Name
pub mod Backends
pub mod Setup
pub mod Run
pub mod Agent
pub mod Membership
pub mod Routing
pub mod Teardown
mod Tests
use displayxr_mcp.Prelude.{ℕ, Bool, false, Option, none, List, [], ◌∷◌, Bytes, replicate}

-- MAX_BACKENDS, MAX_INFLIGHT, MAX_PREFIXES
abbrev pub max_backends : ℕ
max_backends = 32

abbrev pub max_inflight : ℕ
max_inflight = 128

abbrev pub max_prefixes : ℕ
max_prefixes = 128

-- `struct backend` of a used slot; `tools` is the cached array, or NULL.
pub record Backend (Json : Type 0) : Type 0 where
  pub alive : Bool
  pub is_shell : Bool
  pub pid : ℕ
  pub prefix : Bytes
  pub app_id : Bytes
  pub conn : ℕ
  pub tools : Option Json

-- `enum inflight_kind`
pub data Kind : Type 0 where
  agent tools_refresh : Kind

-- `struct inflight` of a used slot.
pub record Inflight (Json : Type 0) : Type 0 where
  pub local_id : ℕ
  pub backend : ℕ
  pub kind : Kind
  pub orig_id : Option Json

-- The static `g`, without its mutexes and the framing latch.
pub record Aggregator (Json : Type 0) : Type 0 where
  pub expose_diagnostics : Bool
  pub agent_initialized : Bool
  pub backends : List (Option (Backend Json))
  pub inflight : List (Option (Inflight Json))
  pub next_local_id : ℕ
  pub used_prefixes : List Bytes
  pub connecting : List ℕ
  pub shell_connecting : Bool

abbrev pub initial : {Json : Type 0} → Bool → Aggregator Json
initial expose = record {
  expose_diagnostics = expose;
  agent_initialized = false;
  backends = replicate max_backends none;
  inflight = replicate max_inflight none;
  next_local_id = 0;
  used_prefixes = [];
  connecting = [];
  shell_connecting = false;
}

-- What a step sends, in order: a message to the agent, the list_changed notification to the agent,
-- a message to a backend's connection, the close of a connection.
pub data Output (Json : Type 0) : Type 0 where
  to_agent : Json → Output Json
  list_changed : Output Json
  to_backend : ℕ → Json → Output Json
  close : ℕ → Output Json
