-- ===== src/Capture.antt =====
-- src/mcp_capture.c: the hand-off of a capture request from the thread of the MCP server to the
-- thread of the compositor. What a function does under the request's lock is one step; the wait on
-- the condition variable gives the lock up, so the handler is a first step and one step per wake-up.
mod Handoff
mod Tests
use displayxr_mcp.Prelude.{
  ℕ, ◌-◌, Bool, true, false, not, ◌&&◌, Option, none, some, List, [], ◌∷◌, length, take, ltb,
  if◌then◌else◌, Bytes,
}

-- MCP_CAPTURE_PATH_MAX
abbrev pub path_max : ℕ
path_max = 256

-- `struct mcp_capture_request` without its lock and its condition variable.
pub record Request : Type 0 where
  pub path : Bytes
  pub mode : ℕ
  pub pending : Bool
  pub done : Bool
  pub success : Bool

-- `mcp_capture_init`
abbrev pub init : Request
init = record { path = []; mode = 0; pending = false; done = false; success = false }

-- The part of the path that fits the request.
abbrev pub fit_path : Bytes → Bytes
fit_path path = if ltb (length path) path_max then path else take (path_max - 1) path

-- `mcp_capture_blocking_handler` up to its first wait, for arguments that are not NULL.
pub submit : Request → Bytes → ℕ → Request
submit r path mode = record {
  path = fit_path path;
  mode = mode;
  pending = true;
  done = false;
  success = false;
}

-- A return of `pthread_cond_timedwait` in the handler, with whether it is an error (the deadline),
-- and what the handler returns, if it does. Without an error the loop looks at `done`.
pub resume : Request → Bool → Request × Option Bool
resume r true = (record r { pending = false }, some false)
resume r false = if r.done then (record r { pending = false }, some r.success) else (r, none)

-- `mcp_capture_poll`: the path and the mode, if a request is to be served.
pub poll : Request → Option (Bytes × ℕ)
poll r = if r.pending && not r.done then some (r.path, r.mode) else none

-- `mcp_capture_complete`
pub complete : Request → Bool → Request
complete r success = record r { success = success; done = true }

-- The static pointers, as the requests and callbacks that they name.
pub record Hooks : Type 0 where
  pub installed : Option ℕ
  pub on_install : Option ℕ
  pub on_uninstall : Option ℕ

abbrev call : Option ℕ → Option ℕ → List (ℕ × Option ℕ)
call none req = []
call (some f) req = (f, req) ∷ []

-- `mcp_capture_install`, `mcp_capture_uninstall` and `mcp_capture_set_notify`, with the callbacks
-- called and what they are given.
pub install : Hooks → ℕ → Hooks × List (ℕ × Option ℕ)
install h req = (record h { installed = some req }, call h.on_install (some req))

pub uninstall : Hooks → Hooks × List (ℕ × Option ℕ)
uninstall h = (record h { installed = none }, call h.on_uninstall none)

pub set_notify : Hooks → Option ℕ → Option ℕ → Hooks
set_notify h on_install on_uninstall = record h {
  on_install = on_install;
  on_uninstall = on_uninstall;
}
