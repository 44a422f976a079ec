-- ===== src/Aggregator/Run.antt =====
-- adapter/workspace_aggregator.c: `workspace_aggregator_run`, the loop over the agent's messages, and
-- one round of `poll_thread`. What the other threads do to the state before the n-th message is an
-- argument.
pub mod Messages
use displayxr_mcp.Prelude.{
  ℕ, zero, suc, Bool, true, false, Option, none, some, List, [], ◌∷◌, ◌++◌, if◌then◌else◌, Bytes,
}
use displayxr_mcp.Json.{Cjson}
use displayxr_mcp.Framing.{Style, unknown, Reader, latch_set, rounds}
use displayxr_mcp.Framing.Frames.{reader_next}
use displayxr_mcp.Aggregator.{Backend, Aggregator, Output, initial}
use displayxr_mcp.Aggregator.Agent.{handle_agent_frame}
use displayxr_mcp.Aggregator.Membership.{poll}
use displayxr_mcp.Aggregator.Setup.{spawn_setup}

module _ {Json : Type 0} where
  -- The connections that are aborted when standard input has ended.
  pub aborted : List (Option (Backend Json)) → List ℕ
  aborted [] = []
  aborted (none ∷ bs) = aborted bs
  aborted (some b ∷ bs) = b.conn ∷ aborted bs

  pub spawn_all : (ℕ → Bool) → Aggregator Json → List ℕ → Aggregator Json
  spawn_all starts g [] = g
  spawn_all starts g (pid ∷ pids) = spawn_all starts (spawn_setup g false pid (starts pid)) pids

  -- One round of `poll_thread`, on the pids that the enumeration finds.
  pub poll_round : ℕ → (ℕ → Bool) → Bool → Aggregator Json → List ℕ → Aggregator Json
  unfolding spawn_all
  poll_round self starts shell_starts g pids =
      let (g', fresh, try_shell) = poll self g pids in
      let g'' = spawn_all starts g' fresh in
      if try_shell then spawn_setup g'' true 0 shell_starts else g''

-- The agent's side of the aggregator while it runs: the reader, the latch, the state, and what was
-- sent.
pub record Session (Json : Type 0) : Type 0 where
  pub reader : Reader
  pub latch : Style
  pub state : Aggregator Json
  pub outputs : List (Output Json)

module _ (J : Cjson) where
  open J use {Json}

  -- What the loop does not decide: the memory behind the reader's valid bytes, which writes to
  -- backends succeed, the version and the description, and the other threads.
  pub record Surroundings : Type 0 where
    pub beyond : Reader → Bytes
    pub writes : ℕ → Bool
    pub version : Bytes
    pub description : Bytes
    pub others : ℕ → Aggregator Json → Aggregator Json

  -- One message, the n-th.
  pub handle_message : Surroundings → ℕ → Session Json → Reader → Bytes → Session Json
  handle_message w n s reader body =
      let (g, out) =
        handle_agent_frame J w.writes w.version w.description (w.others n s.state) body in
      record {
        reader = reader;
        latch = latch_set s.latch reader.framing;
        state = g;
        outputs = s.outputs ++ out;
      }

  -- The loop over the agent's messages, from the n-th on.
  pub agent_loop : Surroundings → ℕ → ℕ → Session Json → Session Json
  unfolding handle_message
  agent_loop w zero n s = s
  agent_loop w (suc fuel) n s =
      let (reader, message) = reader_next (w.beyond s.reader) s.reader in
      elim message [
        | none ↦ record s { reader = reader }
        | some body ↦ agent_loop w fuel (suc n) (handle_message w n s reader body)
      ]

  -- `workspace_aggregator_run`, with whether the poll thread starts: the exit status, the session at
  -- the end, and the connections aborted.
  pub workspace_aggregator_run : Surroundings → Bool → Bool → Reader → ℕ × Session Json × List ℕ
  unfolding agent_loop aborted
  workspace_aggregator_run w expose_diagnostics started reader =
      let begin : Session Json = record {
        reader = reader;
        latch = unknown;
        state = initial expose_diagnostics;
        outputs = [];
      } in
      let end = agent_loop w (rounds reader) 0 begin in
      if started then (0, end, aborted end.state.backends) else (1, begin, [])
