-- ===== src/Server/Lifecycle/Process.antt =====
-- src/mcp_server.c: the server with the log ring and the allowlist that it starts and stops.
use displayxr_mcp.Prelude.{
  ℕ, ◌≡◌, refl, sym, ◌∙◌, Bool, true, not, ◌&&◌, Option, none, some, inl, inr, List, [], ◌∷◌, ltb,
  if◌then◌else◌, Bytes, arith, Bool-cases, Option-cases, get_elem?,
}
use displayxr_mcp.LogRing.{LogRing}
use displayxr_mcp.LogRing as Ring
use displayxr_mcp.Allowlist.{Abi, State}
use displayxr_mcp.Allowlist as Allow
use displayxr_mcp.Server.{Tool, Server}
use displayxr_mcp.Server.Lifecycle.{
  free_index, accept, client_exit, start, stop_listening, stop_end,
}

-- The static state of the three files that a start and a stop touch.
pub record Process (Json : Type 0) : Type 0 where
  pub server : Server Json
  pub ring : LogRing
  pub allowlist : State

-- What happens to a server: a start, with whether the listener opens and whether its thread starts;
-- a connection, with whether its thread starts; the end of a client; a stop.
pub data Event : Type 0 where
  starts : Bool → Bool → Event
  connects : ℕ → Bool → Event
  leaves : ℕ → Event
  stops : Event

init-initialized :
    (abi : Abi) (env : Option Bytes) (s : State) → (Allow.init abi env s).initialized ≡ true
unfolding Allow.init
init-initialized abi none s = ground arith
init-initialized abi (some e) s = ground arith

module _ {Json : Type 0} where
  -- `mcp_server_start` with all of `register_builtins`; `env` is the allowlist's variable.
  pub start_process :
      Abi → Option Bytes → Tool Json → Tool Json → Process Json → Bool → Bool → Process Json
  start_process abi env echo tail_log p opened created =
      if p.server.thread_started then p else record {
        server = start echo tail_log p.server opened created;
        ring = Ring.start p.ring;
        allowlist = Allow.init abi env p.allowlist;
      }

  -- `mcp_server_stop`; while clients are active it waits, with the listener closed.
  pub stop_process : Process Json → Process Json
  stop_process p = record p {
    server = stop_end (stop_listening p.server);
    ring =
        if p.server.thread_started && not (ltb 0 p.server.active_clients)
        then Ring.stop p.ring
        else p.ring;
  }

  pub event : Abi → Option Bytes → Tool Json → Tool Json → Event → Process Json → Process Json
  unfolding start_process stop_process
  event abi env echo tail_log (starts opened created) p =
      start_process abi env echo tail_log p opened created
  event abi env echo tail_log (connects c spawned) p = record p {
    server = (accept p.server c spawned).0;
  }
  event abi env echo tail_log (leaves i) p = record p { server = (client_exit p.server i).0 }
  event abi env echo tail_log stops p = stop_process p

  pub events : Abi → Option Bytes → Tool Json → Tool Json → List Event → Process Json → Process Json
  unfolding event
  events abi env echo tail_log [] p = p
  events abi env echo tail_log (e ∷ es) p =
      events abi env echo tail_log es (event abi env echo tail_log e p)

  -- A server that runs has its log ring started and its allowlist initialised.
  pub record IsReady (p : Process Json) : Type 0 where
    pub ring_started : p.server.thread_started ≡ true → p.ring.started ≡ true
    pub allowlist_initialized : p.server.thread_started ≡ true → p.allowlist.initialized ≡ true

  -- A step that leaves the ring, the allowlist and whether the server runs.
  same-IsReady :
      (p : Process Json) (s : Server Json)
      → s.thread_started ≡ p.server.thread_started
      → IsReady p
      → IsReady (record p { server = s })
  same-IsReady p s e h = record {
    ring_started = λ t. h.ring_started (sym e ∙ t);
    allowlist_initialized = λ t. h.allowlist_initialized (sym e ∙ t);
  }

  accept-thread_started :
      (s : Server Json) (c : ℕ) (spawned : Bool)
      → (accept s c spawned).0.thread_started ≡ s.thread_started
  unfolding accept
  accept-thread_started s c spawned = elim (Option-cases (free_index s.clients 0)) [
    | inl full ↦ rw (full, accept)
    | inr (i, found) ↦ elim (Bool-cases spawned) [
      | inl y ↦ rw (found, accept, y)
      | inr n ↦ rw (found, accept, n)
    ]
  ]

  client_exit-thread_started :
      (s : Server Json) (i : ℕ) → (client_exit s i).0.thread_started ≡ s.thread_started
  unfolding client_exit
  client_exit-thread_started s i = elim (Option-cases (get_elem? s.clients i)) [
    | inl out ↦ rw (out, client_exit)
    | inr (cl, found) ↦
        rw (found, client_exit)
          (elim (Option-cases cl.conn) [
            | inl free ↦ rw free refl
            | inr (c, used) ↦
                rw used (elim (Bool-cases cl.writing) [
                  | inl busy ↦ rw busy refl
                  | inr idle ↦ rw idle refl
                ])
          ])
  ]

  start_process-IsReady :
      (abi : Abi) (env : Option Bytes) (echo tail_log : Tool Json) (p : Process Json)
      (opened created : Bool)
      → IsReady p
      → IsReady (start_process abi env echo tail_log p opened created)
  unfolding start_process Ring.start
  start_process-IsReady abi env echo tail_log p opened created h =
      elim (Bool-cases p.server.thread_started) [
        | inl runs ↦ simp runs h
        | inr halted ↦ simp halted (record {
          ring_started = λ t. refl;
          allowlist_initialized = λ t. init-initialized abi env p.allowlist;
        })
      ]

  -- A server that still runs behind a stop has active clients.
  stop-thread_started :
      (s : Server Json)
      → (stop_end (stop_listening s)).thread_started ≡ true
      → (s.thread_started ≡ true) × (ltb 0 s.active_clients ≡ true)
  unfolding stop_end stop_listening
  stop-thread_started s t = ground arith

  stop_process-IsReady : (p : Process Json) → IsReady p → IsReady (stop_process p)
  unfolding stop_process
  stop_process-IsReady p h = record {
    ring_started = λ t.
        let (runs, busy) = stop-thread_started p.server t in
        simp (runs, busy) (h.ring_started runs);
    allowlist_initialized = λ t. h.allowlist_initialized (stop-thread_started p.server t).0;
  }

  event-IsReady :
      (abi : Abi) (env : Option Bytes) (echo tail_log : Tool Json) (e : Event) (p : Process Json)
      → IsReady p
      → IsReady (event abi env echo tail_log e p)
  unfolding event
  event-IsReady abi env echo tail_log (starts opened created) p h =
      start_process-IsReady abi env echo tail_log p opened created h
  event-IsReady abi env echo tail_log (connects c spawned) p h =
      same-IsReady p (accept p.server c spawned).0 (accept-thread_started p.server c spawned) h
  event-IsReady abi env echo tail_log (leaves i) p h =
      same-IsReady p (client_exit p.server i).0 (client_exit-thread_started p.server i) h
  event-IsReady abi env echo tail_log stops p h = stop_process-IsReady p h

  -- Whatever starts, connections, ends of clients and stops there are, and whatever fails in them,
  -- a server that runs has its log ring started and its allowlist initialised, if that held before.
  pub events-IsReady :
      (abi : Abi) (env : Option Bytes) (echo tail_log : Tool Json) (es : List Event)
      (p : Process Json)
      → IsReady p
      → IsReady (events abi env echo tail_log es p)
  unfolding events
  events-IsReady abi env echo tail_log [] p h = h
  events-IsReady abi env echo tail_log (e ∷ es) p h =
      events-IsReady abi env echo tail_log es (event abi env echo tail_log e p)
        (event-IsReady abi env echo tail_log e p h)
