-- ===== src/Adapter/Bridge/Up.antt =====
-- adapter/displayxr_mcp.c: the thread from standard input to the server passes on every message.
use displayxr_mcp.Prelude.{
  ℕ, suc, ◌<◌, ◌≡◌, refl, sym, ap, ◌∙◌, subst, true, false, some, inl, inr, ◌⊎◌, List, [], ◌∷◌,
  ◌++◌, length, append-nil, append_assoc, map, Bytes, arith,
}
use displayxr_mcp.Wire.{write_frame}
use displayxr_mcp.Framing.{Style, unknown, stream, encode, latch_set}
use displayxr_mcp.Framing.Ready.{IsReady}
use displayxr_mcp.Framing.Frames.Next.{IsMessage, IsKnown, received, reader_next-encode}
use displayxr_mcp.Framing.Frames.End.{reader_next-end}
use displayxr_mcp.Adapter.Bridge.Turns.{
  turn_up-done, turn_up-going, turn_down_cases, idle, ends, reads, writes, turn_close_cases,
  up_round-end, up_round-server, up_round-message, up_round-latch,
}
use displayxr_mcp.Adapter.Bridge.{
  Sink, frame_header, conn_write_frame, Bridge, World, Turn, up, down, close, write_as, close_down,
  turn, run,
}

-- A sink that takes everything.
abbrev pub TakesAll : Sink → Type 0
TakesAll sink = (sent bytes : Bytes) → sink sent bytes ≡ (bytes, true)

pub conn_write_frame-TakesAll :
    (sink : Sink) (sent body : Bytes)
    → TakesAll sink
    → conn_write_frame sink sent body ≡ (sent ++ write_frame body, true)
unfolding conn_write_frame write_frame
conn_write_frame-TakesAll sink sent body t =
    rw (t sent (frame_header (length body)), t (sent ++ frame_header (length body)) body)
      (ap (λ s. (s, true)) (append_assoc sent (frame_header (length body)) body))

-- What a client sends, and what the server is sent for it.
abbrev pub encoded : Style → List Bytes → Bytes
encoded style [] = []
encoded style (m ∷ ms) = encode style m ++ encoded style ms

abbrev pub frames : List Bytes → Bytes
frames [] = []
frames (m ∷ ms) = write_frame m ++ frames ms

abbrev pub AllMessages : List Bytes → Type 0
AllMessages [] = Unit {0}
AllMessages (m ∷ ms) = IsMessage m × AllMessages ms

-- The turns of the thread to the server.
abbrev pub ups : List Turn → ℕ
ups [] = 0
ups (up ∷ ts) = suc (ups ts)
ups (down ∷ ts) = ups ts
ups (close ∷ ts) = ups ts

-- The bridge while the client has messages to send, in its framing.
pub record Sends (style : Style) (messages : List Bytes) (sent : Bytes) (b : Bridge) : Type 0 where
  pub going : b.up_done ≡ false
  pub ready : IsReady b.reader
  pub style_is : (b.reader.framing ≡ unknown) ⊎ (b.reader.framing ≡ style)
  pub coming : stream b.reader ≡ encoded style messages
  pub so_far : b.to_server ≡ sent

-- What the threads to the client and `main` leave of a bridge.
pub record SameUp (b b' : Bridge) : Type 0 where
  pub same_reader : b'.reader ≡ b.reader
  pub same_server : b'.to_server ≡ b.to_server
  pub same_done : b'.up_done ≡ b.up_done

Same : (b : Bridge) → SameUp b b
Same b = record { same_reader = refl; same_server = refl; same_done = refl }

SameUp-reads :
    (b : Bridge) (body rest : Bytes) → SameUp b (record b { from_server = rest; held = some body })
SameUp-reads b body rest = record { same_reader = refl; same_server = refl; same_done = refl }

write_as-SameUp :
    (w : World) (b : Bridge) (body : Bytes) (style : Style) → SameUp b (write_as w b body style)
unfolding write_as
write_as-SameUp w b body style = record { same_reader = refl; same_server = refl; same_done = refl }

pub turn_down-SameUp : (w : World) (b : Bridge) → SameUp b (turn w down b)
turn_down-SameUp w b = elim (turn_down_cases w b) [
  | idle e ↦ subst (SameUp b) (sym e) (Same b)
  | ends e ↦
      subst (SameUp b) (sym e) (record { same_reader = refl; same_server = refl; same_done = refl })
  | reads body rest h f e ↦ subst (SameUp b) (sym e) (SameUp-reads b body rest)
  | writes body style h l e ↦ subst (SameUp b) (sym e) (write_as-SameUp w b body style)
]

turn_close-SameUp : (w : World) (b : Bridge) → SameUp b (turn w close b)
unfolding close_down
turn_close-SameUp w b = elim (turn_close_cases w b) [
  | inl e ↦ subst (SameUp b) (sym e) (Same b)
  | inr (d, c, e) ↦
      subst (SameUp b) (sym e) (record { same_reader = refl; same_server = refl; same_done = refl })
]

-- The server's bytes, once the thread to it has ended.
pub record Ended (sent : Bytes) (b : Bridge) : Type 0 where
  pub ended : b.up_done ≡ true
  all : b.to_server ≡ sent

SameUp-Ended : (sent : Bytes) (b b' : Bridge) → SameUp b b' → Ended sent b → Ended sent b'
SameUp-Ended sent b b' s h = record { ended = s.same_done ∙ h.ended; all = s.same_server ∙ h.all }

run-Ended :
    (w : World) (ts : List Turn) (sent : Bytes) (b : Bridge)
    → Ended sent b
    → Ended sent (run w ts b)
unfolding run
run-Ended w [] sent b h = h
run-Ended w (up ∷ ts) sent b h =
    run-Ended w ts sent (turn w up b) (subst (Ended sent) (sym (turn_up-done w b h.ended)) h)
run-Ended w (down ∷ ts) sent b h =
    run-Ended w ts sent (turn w down b) (SameUp-Ended sent b _ (turn_down-SameUp w b) h)
run-Ended w (close ∷ ts) sent b h =
    run-Ended w ts sent (turn w close b) (SameUp-Ended sent b _ (turn_close-SameUp w b) h)

pub SameUp-Sends :
    (style : Style) (ms : List Bytes) (sent : Bytes) (b b' : Bridge)
    → SameUp b b'
    → Sends style ms sent b
    → Sends style ms sent b'
SameUp-Sends style ms sent b b' s h =
    let same = sym s.same_reader in
    record {
      going = s.same_done ∙ h.going;
      ready = subst IsReady same h.ready;
      style_is = subst (λ r. (r.framing ≡ unknown) ⊎ (r.framing ≡ style)) same h.style_is;
      coming = ap stream s.same_reader ∙ h.coming;
      so_far = s.same_server ∙ h.so_far;
    }

-- The end of what the client sends.
pub turn_up-Ended :
    (w : World) (style : Style) (sent : Bytes) (b : Bridge)
    → Sends style [] sent b
    → Ended sent (turn w up b)
turn_up-Ended w style sent b h =
    let over = reader_next-end (w.beyond b.reader) b.reader h.ready h.coming in
    subst (Ended sent) (sym (turn_up-going w b h.going))
      (record { ended = up_round-end w b over; all = up_round-server w b over ∙ h.so_far })

-- One message more.
pub turn_up-Sends :
    (w : World) (style : Style) (m : Bytes) (ms : List Bytes) (sent : Bytes) (b : Bridge)
    → TakesAll w.server_sink
    → IsKnown style
    → IsMessage m
    → Sends style (m ∷ ms) sent b
    → Sends style ms (sent ++ write_frame (received style m)) (turn w up b)
turn_up-Sends w style m ms sent b t k im h =
    let got =
      reader_next-encode style (w.beyond b.reader) b.reader m (encoded style ms) k im h.ready
        h.style_is h.coming in
    let next = b.to_server ++ write_frame (received style m) in
    let out =
      up_round-message w b (received style m) next got.message_is
        (conn_write_frame-TakesAll w.server_sink b.to_server (received style m) t) in
    subst (Sends style ms (sent ++ write_frame (received style m)))
      (sym (turn_up-going w b h.going ∙ out))
      (record {
        going = refl;
        ready = got.ready;
        style_is = inr got.style_is;
        coming = got.left;
        so_far = ap (λ s. s ++ write_frame (received style m)) h.so_far;
      })

-- The latch behind them: the end of the input leaves it, a message sets it to the client's framing.
pub turn_up-latch_end :
    (w : World) (style : Style) (sent : Bytes) (b : Bridge)
    → Sends style [] sent b
    → (turn w up b).latch ≡ b.latch
turn_up-latch_end w style sent b h =
    ap (λ t. t.latch) (turn_up-going w b h.going)
    ∙ up_round-latch w b (reader_next-end (w.beyond b.reader) b.reader h.ready h.coming)

pub turn_up-latch_message :
    (w : World) (style : Style) (m : Bytes) (ms : List Bytes) (sent : Bytes) (b : Bridge)
    → TakesAll w.server_sink
    → IsKnown style
    → IsMessage m
    → Sends style (m ∷ ms) sent b
    → (turn w up b).latch ≡ latch_set b.latch style
turn_up-latch_message w style m ms sent b t k im h =
    let got =
      reader_next-encode style (w.beyond b.reader) b.reader m (encoded style ms) k im h.ready
        h.style_is h.coming in
    ap (λ t. t.latch)
      (turn_up-going w b h.going
        ∙ up_round-message w b (received style m) (b.to_server ++ write_frame (received style m))
            got.message_is
            (conn_write_frame-TakesAll w.server_sink b.to_server (received style m) t))
    ∙ ap (latch_set b.latch) got.style_is

run-Sends :
    (w : World) (style : Style) (ts : List Turn) (ms : List Bytes) (sent : Bytes) (b : Bridge)
    → TakesAll w.server_sink
    → IsKnown style
    → AllMessages ms
    → Sends style ms sent b
    → length ms < ups ts
    → Ended (sent ++ frames (map (received style) ms)) (run w ts b)
unfolding run
run-Sends w style [] ms sent b t k a h l = absurd (omega arith)
run-Sends w style (down ∷ ts) ms sent b t k a h l =
    run-Sends w style ts ms sent (turn w down b) t k a
      (SameUp-Sends style ms sent b _ (turn_down-SameUp w b) h) l
run-Sends w style (close ∷ ts) ms sent b t k a h l =
    run-Sends w style ts ms sent (turn w close b) t k a
      (SameUp-Sends style ms sent b _ (turn_close-SameUp w b) h) l
run-Sends w style (up ∷ ts) [] sent b t k a h l =
    subst (λ s. Ended s (run w ts (turn w up b))) (sym (append-nil sent))
      (run-Ended w ts sent (turn w up b) (turn_up-Ended w style sent b h))
run-Sends w style (up ∷ ts) (m ∷ ms) sent b t k a h l =
    let frame = write_frame (received style m) in
    subst (λ s. Ended s (run w ts (turn w up b)))
      (append_assoc sent frame (frames (map (received style) ms)))
      (run-Sends w style ts ms (sent ++ frame) (turn w up b) t k a.1
        (turn_up-Sends w style m ms sent b t k a.0 h) (omega arith))

-- Whatever the interleaving of the three threads, once the thread to the server has had a turn for
-- each message that the client sends and one for the end of the input, it has ended, and the server
-- was sent exactly one frame for each message, in order, with what the reader makes of that message.
-- The bridge is one where that thread runs, its reader is before the end of its input and does not
-- yet know a framing or knows the client's, and what is still to come is the messages in the client's
-- framing; each is a JSON object of less than 16 MiB, and the connection takes all that is written.
pub run-delivers :
    (w : World) (style : Style) (ts : List Turn) (ms : List Bytes) (sent : Bytes) (b : Bridge)
    → TakesAll w.server_sink
    → IsKnown style
    → AllMessages ms
    → Sends style ms sent b
    → length ms < ups ts
    → ((run w ts b).up_done ≡ true)
      × ((run w ts b).to_server ≡ sent ++ frames (map (received style) ms))
run-delivers w style ts ms sent b t k a h l =
    let e = run-Sends w style ts ms sent b t k a h l in (e.ended, e.all)
