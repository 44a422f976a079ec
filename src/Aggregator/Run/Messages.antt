-- ===== src/Aggregator/Run/Messages.antt =====
-- adapter/workspace_aggregator.c: the aggregator handles every message of the agent once, in order.
use displayxr_mcp.Prelude.{
  ℕ, zero, suc, ◌≤◌, ◌<◌, ◌≡◌, refl, ap, ◌∙◌, Bool, true, none, some, inl, inr, ◌⊎◌, List, [], ◌∷◌,
  ◌++◌, length, length-append, map, Bytes, arith,
}
use displayxr_mcp.Json.{Cjson}
use displayxr_mcp.Wire.{newline, write_frame}
use displayxr_mcp.Framing.{
  Style, unknown, ndjson, content_length, one_line, Reader, rounds, stream, encode,
}
use displayxr_mcp.Framing.Ready.{IsReady}
use displayxr_mcp.Framing.Frames.{reader_next}
use displayxr_mcp.Framing.Frames.Next.{IsMessage, IsKnown, received, reader_next-encode}
use displayxr_mcp.Framing.Frames.End.{reader_next-end}
use displayxr_mcp.Adapter.Bridge.Up.{encoded, AllMessages}
use displayxr_mcp.Aggregator.{Aggregator, Output, initial}
use displayxr_mcp.Aggregator.Agent.{handle_agent_frame}
use displayxr_mcp.Aggregator.Run.{
  Session, Surroundings, handle_message, agent_loop, workspace_aggregator_run,
}

encode_pos : (style : Style) (m : Bytes) → IsMessage m → 0 < length (encode style m)
unfolding encode write_frame
encode_pos unknown m (cs, e, l) = omega (arith, length-append (map one_line m) (newline ∷ []))
encode_pos ndjson m (cs, e, l) = omega (arith, length-append (map one_line m) (newline ∷ []))
encode_pos content_length m (cs, e, l) = omega arith

length-encoded :
    (style : Style) (ms : List Bytes) → AllMessages ms → length ms ≤ length (encoded style ms)
length-encoded style [] a = omega arith
length-encoded style (m ∷ ms) a = omega (
  arith,
  length-append (encode style m) (encoded style ms),
  encode_pos style m a.0,
  length-encoded style ms a.1,
)

module _ (J : Cjson) where
  open J use {Json}

  -- What the messages do, from the n-th on: the state and what is sent, in order.
  abbrev pub handled :
      Surroundings J
      → ℕ
      → List Bytes
      → Aggregator Json
      → List (Output Json)
      → Aggregator Json × List (Output Json)
  handled w n [] g out = (g, out)
  handled w n (m ∷ ms) g out =
      let (g', out') = handle_agent_frame J w.writes w.version w.description (w.others n g) m in
      handled w (suc n) ms g' (out ++ out')

  agent_loop-end :
      (w : Surroundings J) (fuel n : ℕ) (s : Session Json)
      → (reader_next (w.beyond s.reader) s.reader).1 ≡ none
      → agent_loop J w (suc fuel) n s
        ≡ record s { reader = (reader_next (w.beyond s.reader) s.reader).0 }
  unfolding agent_loop
  agent_loop-end w fuel n s e = rw (e, agent_loop)

  agent_loop-message :
      (w : Surroundings J) (fuel n : ℕ) (s : Session Json) (body : Bytes)
      → (reader_next (w.beyond s.reader) s.reader).1 ≡ some body
      → agent_loop J w (suc fuel) n s
        ≡ agent_loop J w fuel
            (suc n)
            (handle_message J w n s (reader_next (w.beyond s.reader) s.reader).0 body)
  unfolding agent_loop
  agent_loop-message w fuel n s body e = rw (e, agent_loop)

  -- The loop handles exactly the messages that the agent wrote, once each and in order, in whichever
  -- of the two framings they come and however standard input is divided into reads, and then ends:
  -- its state and what it sends are those of handling each message as the reader makes it, with the
  -- other threads' changes in between. The reader is before the end of its input and does not yet
  -- know a framing or knows the agent's, the messages are JSON objects of less than 16 MiB, and the
  -- fuel is above their number.
  pub agent_loop_lem :
      (w : Surroundings J) (style : Style) (fuel n : ℕ) (ms : List Bytes) (s : Session Json)
      → IsKnown style
      → AllMessages ms
      → IsReady s.reader
      → (s.reader.framing ≡ unknown) ⊎ (s.reader.framing ≡ style)
      → stream s.reader ≡ encoded style ms
      → length ms < fuel
      → ((agent_loop J w fuel n s).state, (agent_loop J w fuel n s).outputs)
        ≡ handled w n (map (received style) ms) s.state s.outputs
  unfolding handle_message
  agent_loop_lem w style zero n ms s k a v f e l = absurd (omega (arith, l))
  agent_loop_lem w style (suc fuel) n [] s k a v f e l =
      let over = reader_next-end (w.beyond s.reader) s.reader v e in
      ap (λ t. (t.state, t.outputs)) (agent_loop-end w fuel n s over)
  agent_loop_lem w style (suc fuel) n (m ∷ ms) s k a v f e l =
      let got =
        reader_next-encode style (w.beyond s.reader) s.reader m (encoded style ms) k a.0 v f e in
      let reader = (reader_next (w.beyond s.reader) s.reader).0 in
      ap (λ t. (t.state, t.outputs))
        (agent_loop-message w fuel n s (received style m) got.message_is)
      ∙ agent_loop_lem w style fuel (suc n) ms (handle_message J w n s reader (received style m)) k
          a.1 got.ready (inr got.style_is) got.left (omega arith)

  -- A run of the aggregator whose poll thread starts exits with 0 when standard input has ended, and
  -- has then handled exactly the messages that the agent wrote, once each and in order, from the
  -- initial state on, in whichever of the two framings they come and however the input is divided
  -- into reads, with the other threads' changes in between. The reader is a fresh one before the end
  -- of its input, and the messages are JSON objects of less than 16 MiB.
  pub workspace_aggregator_run_lem :
      (w : Surroundings J) (expose : Bool) (style : Style) (ms : List Bytes) (reader : Reader)
      → IsKnown style
      → AllMessages ms
      → IsReady reader
      → reader.framing ≡ unknown
      → stream reader ≡ encoded style ms
      → ((workspace_aggregator_run J w expose true reader).0 ≡ 0)
        × ((
          (workspace_aggregator_run J w expose true reader).1.state,
          (workspace_aggregator_run J w expose true reader).1.outputs,
        )
            ≡ handled w 0 (map (received style) ms) (initial expose) [])
  unfolding workspace_aggregator_run
  workspace_aggregator_run_lem w expose style ms reader k a v f e =
      let begin : Session Json = record {
        reader = reader;
        latch = unknown;
        state = initial expose;
        outputs = [];
      } in
      (
        refl,
        agent_loop_lem w style (rounds reader) 0 ms begin k a v (inl f) e
            (omega (arith, ap length e, length-encoded style ms a)),
      )
