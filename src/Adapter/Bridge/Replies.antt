-- ===== src/Adapter/Bridge/Replies.antt =====
-- adapter/displayxr_mcp.c: all three threads together. The replies come in the client's own framing.
use displayxr_mcp.Prelude.{
  ◌≡◌, ◌≢◌, refl, sym, ap, ◌∙◌, subst, false, none, some, inl, inr, List, [], ◌∷◌, ◌++◌, Bytes,
  Bool-cases,
}
use displayxr_mcp.Framing.{Style, unknown, encode}
use displayxr_mcp.Framing.Frames.Next.{IsKnown}
use displayxr_mcp.Adapter.Bridge.{
  Bridge, World, Turn, up, down, close, write_as, close_down, turn, run,
}
use displayxr_mcp.Adapter.Bridge.Turns.{
  turn_up-done, turn_up-going, turn_down_cases, idle, ends, reads, writes, turn_close_cases,
  SameDown, up_round-SameDown,
}
use displayxr_mcp.Adapter.Bridge.Up.{
  TakesAll, frames, AllMessages, Sends, turn_down-SameUp, turn_up-latch_end, turn_up-latch_message,
}
use displayxr_mcp.Adapter.Bridge.Down.{latch_look-some, write_as-TakesAll}
use displayxr_mcp.Adapter.Bridge.Relay.{AllReplies}
use displayxr_mcp.Adapter.Bridge.Messages.{
  IsClients, Client, talks, stops, left, Client-IsClients, latch_set-IsClients, turn_up-Client,
  SameUp-Client, turn_close-Client, done-latch,
}
use displayxr_mcp.Adapter.Bridge.Written.{
  Coming, Framed, open_yet, SameDown-Framed, read-Framed, end-Framed, write-Framed, close-Framed,
}

-- The three threads together.
record Served (w : World) (style : Style) (rs : List Bytes) (b : Bridge) : Type 0 where
  client : Client style b
  framed : Framed w style rs b
  quiet : b.latch ≡ unknown → b.to_client ≡ []

turn_up-SameDown : (w : World) (b : Bridge) → SameDown b (turn w up b)
turn_up-SameDown w b = elim (Bool-cases b.up_done) [
  | inl done ↦ subst (SameDown b) (sym (turn_up-done w b done)) (record {
    same_client = refl;
    same_held = refl;
    same_source = refl;
    same_done = refl;
    same_closing = refl;
  })
  | inr going ↦ subst (SameDown b) (sym (turn_up-going w b going)) (up_round-SameDown w b)
]

turn_up-unknown :
    (w : World) (style : Style) (b : Bridge)
    → TakesAll w.server_sink
    → IsKnown style
    → Client style b
    → (turn w up b).latch ≡ unknown
    → b.latch ≡ unknown
turn_up-unknown w style b t k (talks m ms sent a h (inl l)) e = l
turn_up-unknown w style b t k (talks m ms sent a h (inr l)) e = absurd (
    k (
      sym (
        turn_up-latch_message w style m ms sent b t k a.0 h
        ∙ latch_set-IsClients style b.latch k (inr l))
      ∙ e))
turn_up-unknown w style b t k (stops sent h l) e = sym (turn_up-latch_end w style sent b h) ∙ e
turn_up-unknown w style b t k (left d l) e = sym (ap (λ b. b.latch) (turn_up-done w b d)) ∙ e

turn_up-Served :
    (w : World) (style : Style) (rs : List Bytes) (b : Bridge)
    → TakesAll w.server_sink
    → IsKnown style
    → Served w style rs b
    → Served w style rs (turn w up b)
turn_up-Served w style rs b t k h =
    let same = turn_up-SameDown w b in
    record {
      client = turn_up-Client w style b t k h.client;
      framed = SameDown-Framed w style rs b (turn w up b) same h.framed;
      quiet = λ e. same.same_client ∙ h.quiet (turn_up-unknown w style b t k h.client e);
    }

write_as-Served :
    (w : World) (style s : Style) (rs : List Bytes) (b : Bridge) (body : Bytes)
    → TakesAll w.client_sink
    → b.held ≡ some body
    → b.latch ≡ s
    → b.latch ≢ unknown
    → Client style (write_as w b body s)
    → Served w style rs b
    → Served w style rs (write_as w b body s)
write_as-Served w style s rs b body t held l n c h =
    let own : s ≡ style = elim (Client-IsClients style b h.client) [
      | inl u ↦ absurd (n u)
      | inr e ↦ sym l ∙ e
    ] in
    let next = write_as-TakesAll w b body s t in
    record {
      client = c;
      framed =
          subst (Framed w style rs)
            (sym (
              next
              ∙ ap
                  (λ f. record b {
                    held = none;
                    to_client = b.to_client ++ encode f body;
                    down_done = false;
                  })
                  own))
            (write-Framed w style rs b body held h.framed);
      quiet = λ e. absurd (n (sym (ap (λ b. b.latch) next) ∙ e));
    }

turn_down-latch : (w : World) (b : Bridge) → (turn w down b).latch ≡ b.latch
unfolding write_as
turn_down-latch w b = elim (turn_down_cases w b) [
  | idle e ↦ ap (λ b. b.latch) e
  | ends e ↦ ap (λ b. b.latch) e
  | reads body tail h f e ↦ ap (λ b. b.latch) e
  | writes body s h l e ↦ ap (λ b. b.latch) e
]

turn_down-Served :
    (w : World) (style : Style) (rs : List Bytes) (b : Bridge)
    → TakesAll w.client_sink
    → Served w style rs b
    → Served w style rs (turn w down b)
turn_down-Served w style rs b t h =
    let c =
      SameUp-Client style b (turn w down b) (turn_down-SameUp w b) (turn_down-latch w b) h.client in
    elim (turn_down_cases w b) [
      | idle e ↦ subst (Served w style rs) (sym e) h
      | ends e ↦ subst (Served w style rs) (sym e) (record {
        client = subst (Client style) e c;
        framed = end-Framed w style rs b h.framed;
        quiet = h.quiet;
      })
      | reads body tail held f e ↦ subst (Served w style rs) (sym e) (record {
        client = subst (Client style) e c;
        framed = read-Framed w style rs b body tail held f h.framed;
        quiet = h.quiet;
      })
      | writes body s held l e ↦
          let (same, known) = latch_look-some b.latch s l in
          subst (Served w style rs) (sym e)
            (write_as-Served w style s rs b body t held same known (subst (Client style) e c) h)
    ]

turn_close-Served :
    (w : World) (style : Style) (rs : List Bytes) (b : Bridge)
    → IsKnown style
    → Served w style rs b
    → Served w style rs (turn w close b)
unfolding close_down
turn_close-Served w style rs b k h = elim (turn_close_cases w b) [
  | inl e ↦ subst (Served w style rs) (sym e) h
  | inr (d, n, e) ↦
      let c = turn_close-Client w style b k h.client d in
      subst (Served w style rs) (sym e) (record {
        client = c;
        framed = close-Framed w style rs b n h.framed;
        quiet = λ u. absurd (k (sym (done-latch style (close_down w b) c d) ∙ u));
      })
]

run-Served :
    (w : World) (style : Style) (ts : List Turn) (rs : List Bytes) (b : Bridge)
    → TakesAll w.server_sink
    → TakesAll w.client_sink
    → IsKnown style
    → Served w style rs b
    → Served w style rs (run w ts b)
unfolding run
run-Served w style [] rs b ts tc k h = h
run-Served w style (up ∷ us) rs b ts tc k h =
    run-Served w style us rs (turn w up b) ts tc k (turn_up-Served w style rs b ts k h)
run-Served w style (down ∷ us) rs b ts tc k h =
    run-Served w style us rs (turn w down b) ts tc k (turn_down-Served w style rs b tc h)
run-Served w style (close ∷ us) rs b ts tc k h =
    run-Served w style us rs (turn w close b) ts tc k (turn_close-Served w style rs b k h)

-- The server's side before anything was read: nothing is held or written, no framing is known, the
-- connection is open, and the replies are on their way.
pub record Fresh (rs : List Bytes) (b : Bridge) : Type 0 where
  pub unlatched : b.latch ≡ unknown
  pub free : b.held ≡ none
  pub nothing : b.to_client ≡ []
  pub connected : b.closing ≡ false
  pub coming : b.from_server ≡ frames rs

-- Whatever the interleaving of the three threads, when a client sends at least one message in its
-- framing and the server the replies `rs`: the latch is the client's framing or not yet known; until
-- it is known nothing is written to the client; what is written is the first of `rs`, in order and in
-- the client's framing, and the others are still on their way; and from the close of the connection
-- on, only the reply in hand then and the frames that are read from what the abort leaves of the rest
-- come behind them, in order and in that framing too. Each message is a JSON object of less than
-- 16 MiB, each reply has at least one byte and at most 16 MiB, and connection and standard output take
-- all that is written. At first nothing is passed on, held or written, the connection is open and no
-- framing latched; the thread to the server runs, and its reader is before the end of its input and
-- knows no framing yet or the client's.
pub run-Framed :
    (w : World) (style : Style) (ts : List Turn) (m : Bytes) (ms rs : List Bytes) (b : Bridge)
    → TakesAll w.server_sink
    → TakesAll w.client_sink
    → IsKnown style
    → AllMessages (m ∷ ms)
    → AllReplies rs
    → Sends style (m ∷ ms) [] b
    → Fresh rs b
    → IsClients style (run w ts b).latch
      × ((run w ts b).latch ≡ unknown → (run w ts b).to_client ≡ [])
      × Framed w style rs (run w ts b)
run-Framed w style ts m ms rs b ss sc k a ar h f =
    let out = run-Served w style ts rs b ss sc k (record {
      client = talks m ms [] a h (inl f.unlatched);
      framed =
          open_yet [] rs f.connected refl ar
            (subst (λ held. Coming held rs b.from_server) (sym f.free) f.coming) f.nothing;
      quiet = λ e. f.nothing;
    }) in
    (Client-IsClients style (run w ts b) out.client, out.quiet, out.framed)
