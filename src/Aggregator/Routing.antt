-- ===== src/Aggregator/Routing.antt =====
-- adapter/workspace_aggregator.c: a call of the agent on its way to a backend and back.
use displayxr_mcp.Prelude.{
  ℕ, ◌+◌, ◌^◌, ◌≤◌, ◌<◌, ◌≡◌, ◌≢◌, ◌∙◌, Bool, true, false, Option, none, some, List, [], ◌∷◌,
  length, ◌==◌, Bytes, ascii, str_eq, arith,
}
use displayxr_mcp.Json.{Cjson}
use displayxr_mcp.Server.Rpc.{item?, string_value?}
use displayxr_mcp.Server.Rpc.Envelope.{Answers}
use displayxr_mcp.Aggregator.{Backend, agent, Inflight, Aggregator, Output, to_agent, to_backend}
use displayxr_mcp.Aggregator.Ids.{alloc, find, release}
use displayxr_mcp.Aggregator.Ids.Table.{IsValid, alloc_lem, find-release}
use displayxr_mcp.Aggregator.Name.{split_name, prefixed, NoUnderscore, split_name-prefixed}
use displayxr_mcp.Aggregator.Backends.{deliver, on_response, on_message}
use displayxr_mcp.Aggregator.Agent.{route, forward_request, forward, call_named}

module _ (J : Cjson) where
  open J use {Json, replace, item, number_value}

  -- The backend that a call is for: its name is `<prefix>__<tool>` and not the aggregator's own tool,
  -- and the slot `idx` holds the first live backend under that prefix.
  pub record IsFor (g : Aggregator Json) (params : Option Json) (tool : Bytes) (idx : ℕ)
      (b : Backend Json) : Type 0 where
    pub full : Bytes
    pub prefix : Bytes
    pub named : string_value? J (item? J params (ascii "name")) ≡ some full
    pub other : str_eq full (ascii "workspace__list_apps") ≡ false
    pub split : split_name full ≡ some (prefix, tool)
    pub routed : route g.backends 0 prefix ≡ some (idx, b)

  -- What becomes of a `tools/call` with the id `id`. It is answered at once and no entry is kept, and
  -- then it is for no backend or the table is full; or the one request, under the bare name and with
  -- the id of the new entry, goes to the backend that the call is for: the entry stays for the answer
  -- when the write succeeds, and is released and the call answered when it fails.
  pub data Outcome (writes : ℕ → Bool) (g : Aggregator Json) (id : Json) (params : Option Json)
      : Aggregator Json × List (Output Json) → Type 0 where
    answered :
        (m : Json)
        → Answers J id m
        → ((tool : Bytes) (idx : ℕ) (b : Backend Json)
            → IsFor g params tool idx b
            → alloc g idx agent (some id) ≡ none)
        → Outcome writes g id params (g, to_agent m ∷ [])
    pending :
        (tool : Bytes) (idx : ℕ) (b : Backend Json) (g' : Aggregator Json)
        → IsFor g params tool idx b
        → alloc g idx agent (some id) ≡ some g'
        → writes b.conn ≡ true
        → Outcome writes g id params (
          g',
          to_backend b.conn
                (forward_request J g'.next_local_id tool (item? J params (ascii "arguments")))
              ∷ [],
        )
    failed :
        (tool : Bytes) (idx : ℕ) (b : Backend Json) (g' : Aggregator Json) (m : Json)
        → IsFor g params tool idx b
        → alloc g idx agent (some id) ≡ some g'
        → writes b.conn ≡ false
        → Answers J id m
        → Outcome writes g id params (
          record g' { inflight = release g'.inflight g'.next_local_id },
          to_backend b.conn
                (forward_request J g'.next_local_id tool (item? J params (ascii "arguments")))
              ∷ to_agent m
              ∷ [],
        )

  -- The forwarded request, and what the response `msg` to it does.
  pub record Routed (writes : ℕ → Bool) (g : Aggregator Json) (id : Json) (params : Option Json)
      (full bare : Bytes) (idx : ℕ) (b : Backend Json) (g' : Aggregator Json) (msg : Json)
      : Type 0 where
    pub sent : call_named J writes g id params full ≡ (
      g',
      to_backend b.conn
            (forward_request J g'.next_local_id bare (item? J params (ascii "arguments")))
          ∷ [],
    )
    pub returned : on_message J writes g' idx msg ≡ (
      record g' { inflight = release g'.inflight g'.next_local_id },
      to_agent (replace msg (ascii "id") id) ∷ [],
    )
    pub released : find (release g'.inflight g'.next_local_id) g'.next_local_id ≡ none

  on_message_agent :
      (writes : ℕ → Bool) (g : Aggregator Json) (idx j : ℕ) (id msg n : Json)
      → find g.inflight j
        ≡ some (record { local_id = j; backend = idx; kind = agent; orig_id = some id })
      → item msg (ascii "id") ≡ some n
      → number_value n ≡ some j
      → on_message J writes g idx msg ≡ (
        record g { inflight = release g.inflight j },
        to_agent (replace msg (ascii "id") id) ∷ [],
      )
  unfolding on_message on_response deliver
  on_message_agent writes g idx j id msg n f i v =
      let own : (idx == idx) ≡ true = ground arith in
      rw (i, on_message, v, f, on_response, own, deliver)

  -- A call of `<prefix>__<tool>` goes to the first live backend under that prefix, as a call of
  -- `<tool>` with the agent's arguments and a fresh id; the backend's response with that id reaches
  -- the agent with the agent's own id in place of it, and the entry is gone. It holds for a prefix
  -- without underscore, where neither side is empty, the name fits the 127 bytes of a listed name
  -- and is not the aggregator's own tool, while the table is valid and has room, the ids do not
  -- wrap around, and the write succeeds.
  pub call_named-on_message :
      (writes : ℕ → Bool) (g : Aggregator Json) (id : Json) (params : Option Json) (p t : Bytes)
      (idx : ℕ) (b : Backend Json) (g' : Aggregator Json) (msg n : Json)
      → IsValid g
      → g.next_local_id + 1 < 2 ^ 64
      → NoUnderscore p
      → p ≢ []
      → t ≢ []
      → length p + length t ≤ 125
      → str_eq (prefixed p t) (ascii "workspace__list_apps") ≡ false
      → route g.backends 0 p ≡ some (idx, b)
      → writes b.conn ≡ true
      → alloc g idx agent (some id) ≡ some g'
      → item msg (ascii "id") ≡ some n
      → number_value n ≡ some g'.next_local_id
      → Routed writes g id params (prefixed p t) t idx b g' msg
  unfolding call_named forward
  call_named-on_message writes g id params p t idx b g' msg n v w u hp ht l other r ok a i k =
      let added = alloc_lem g idx agent (some id) g' v w a in
      let j = g'.next_local_id in
      let own : (j == j) ≡ true = ground arith in
      let s = split_name-prefixed p t u hp ht l in
      record {
        sent = rw (other, call_named, s, r, a, forward, ok);
        returned = on_message_agent writes g' idx j id msg n (added.lookup j ∙ rw own) i k;
        released = find-release g'.inflight j j added.valid.distinct ∙ rw own;
      }

  -- In a valid table, a response that carries the id of another backend's call uses up that call's
  -- entry: nothing is sent, and when the response of the right backend comes, it is dropped too.
  pub cross_response :
      (g : Aggregator Json) (idx j : ℕ) (e : Inflight Json) (msg msg' : Json)
      → IsValid g
      → find g.inflight j ≡ some e
      → (e.backend == idx) ≡ false
      → (on_response J g idx msg j ≡ (record g { inflight = release g.inflight j }, []))
        × (on_response J (record g { inflight = release g.inflight j }) e.backend msg' j
            ≡ (record g { inflight = release g.inflight j }, []))
  unfolding on_response deliver
  cross_response g idx j e msg msg' v f other =
      let own : (j == j) ≡ true = ground arith in
      let gone : find (release g.inflight j) j ≡ none =
        find-release g.inflight j j v.distinct ∙ rw own in
      (rw (f, on_response, other, deliver), rw (gone, on_response))
