-- ===== src/Adapter/Bridge/Turns.antt =====
-- adapter/displayxr_mcp.c: the branches of a turn, as equations.
use displayxr_mcp.Prelude.{
  ◌≡◌, refl, ap, ◌∙◌, true, false, none, some, inl, inr, ◌⊎◌, Bytes, Bool-cases, Option-cases,
}
use displayxr_mcp.Wire.{adapter, read_frame}
use displayxr_mcp.Framing.{Style, latch_set, latch_look}
use displayxr_mcp.Framing.Frames.{reader_next}
use displayxr_mcp.Adapter.Bridge.{
  Bridge, World, up, down, close, conn_write_frame, up_round, write_as, write_held, read_held,
  down_round, close_down, turn,
}

pub turn_up-done : (w : World) (b : Bridge) → b.up_done ≡ true → turn w up b ≡ b
unfolding turn
turn_up-done w b e = simp e

pub turn_up-going : (w : World) (b : Bridge) → b.up_done ≡ false → turn w up b ≡ up_round w b
unfolding turn
turn_up-going w b e = simp e

pub turn_down-done : (w : World) (b : Bridge) → b.down_done ≡ true → turn w down b ≡ b
unfolding turn
turn_down-done w b e = simp e

pub turn_down-read :
    (w : World) (b : Bridge) → b.down_done ≡ false → b.held ≡ none → turn w down b ≡ read_held w b
unfolding turn down_round
turn_down-read w b e h = simp e (ap (down_round w b) h)

pub turn_down-write :
    (w : World) (b : Bridge) (body : Bytes)
    → b.down_done ≡ false
    → b.held ≡ some body
    → turn w down b ≡ write_held w b body
unfolding turn down_round
turn_down-write w b body e h = simp e (ap (down_round w b) h)

pub turn_close_cases :
    (w : World) (b : Bridge)
    → (turn w close b ≡ b)
      ⊎ ((b.up_done ≡ true) × (b.closing ≡ false) × (turn w close b ≡ close_down w b))
unfolding turn
turn_close_cases w b = elim (Bool-cases b.up_done) [
  | inr going ↦ inl (simp going)
  | inl done ↦ elim (Bool-cases b.closing) [
    | inl closing ↦ inl (simp (done, closing))
    | inr before ↦ inr (done, before, simp (done, before))
  ]
]

pub read_held-frame :
    (w : World) (b : Bridge) (body rest : Bytes)
    → read_frame adapter b.from_server ≡ some (body, rest)
    → read_held w b ≡ record b { from_server = rest; held = some body }
unfolding read_held
read_held-frame w b body rest e = rw (e, read_held)

pub read_held-end :
    (w : World) (b : Bridge)
    → read_frame adapter b.from_server ≡ none
    → read_held w b ≡ record b { down_done = true }
unfolding read_held
read_held-end w b e = rw (e, read_held)

pub write_held-waits :
    (w : World) (b : Bridge) (body : Bytes) → latch_look b.latch ≡ none → write_held w b body ≡ b
unfolding write_held
write_held-waits w b body e = rw (e, write_held)

pub write_held-known :
    (w : World) (b : Bridge) (body : Bytes) (style : Style)
    → latch_look b.latch ≡ some style
    → write_held w b body ≡ write_as w b body style
unfolding write_held
write_held-known w b body style e = rw (e, write_held)

-- What a turn of the thread to the client can do.
pub data DownTurn (w : World) (b : Bridge) : Type 0 where
  idle : turn w down b ≡ b → DownTurn w b
  ends : (turn w down b ≡ record b { down_done = true }) → DownTurn w b
  reads :
      (body rest : Bytes)
      → b.held ≡ none
      → read_frame adapter b.from_server ≡ some (body, rest)
      → (turn w down b ≡ record b { from_server = rest; held = some body })
      → DownTurn w b
  writes :
      (body : Bytes) (style : Style)
      → b.held ≡ some body
      → latch_look b.latch ≡ some style
      → turn w down b ≡ write_as w b body style
      → DownTurn w b

pub turn_down_cases : (w : World) (b : Bridge) → DownTurn w b
turn_down_cases w b = elim (Bool-cases b.down_done) [
  | inl done ↦ idle (turn_down-done w b done)
  | inr going ↦ elim (Option-cases b.held) [
    | inl free ↦ elim (Option-cases (read_frame adapter b.from_server)) [
      | inl failed ↦ ends (turn_down-read w b going free ∙ read_held-end w b failed)
      | inr (frame, read) ↦
          reads frame.0 frame.1 free read
            (turn_down-read w b going free ∙ read_held-frame w b frame.0 frame.1 read)
    ]
    | inr (body, held) ↦ elim (Option-cases (latch_look b.latch)) [
      | inl wait ↦ idle (turn_down-write w b body going held ∙ write_held-waits w b body wait)
      | inr (style, look) ↦
          writes body style held look
            (turn_down-write w b body going held ∙ write_held-known w b body style look)
    ]
  ]
]

pub up_round-end :
    (w : World) (b : Bridge)
    → (reader_next (w.beyond b.reader) b.reader).1 ≡ none
    → (up_round w b).up_done ≡ true
unfolding up_round
up_round-end w b e = rw (e, up_round)

pub up_round-message :
    (w : World) (b : Bridge) (body sent : Bytes)
    → (reader_next (w.beyond b.reader) b.reader).1 ≡ some body
    → conn_write_frame w.server_sink b.to_server body ≡ (sent, true)
    → up_round w b ≡ record b {
      reader = (reader_next (w.beyond b.reader) b.reader).0;
      latch = latch_set b.latch (reader_next (w.beyond b.reader) b.reader).0.framing;
      to_server = sent;
      up_done = false;
    }
unfolding up_round
up_round-message w b body sent e f =
    let all : (conn_write_frame w.server_sink b.to_server body).0 ≡ sent = ap (λ p. p.0) f in
    let ok : (conn_write_frame w.server_sink b.to_server body).1 ≡ true = ap (λ p. p.1) f in
    rw (e, up_round, all, ok)

pub up_round-server :
    (w : World) (b : Bridge)
    → (reader_next (w.beyond b.reader) b.reader).1 ≡ none
    → (up_round w b).to_server ≡ b.to_server
unfolding up_round
up_round-server w b e = rw (e, up_round)

pub up_round-latch :
    (w : World) (b : Bridge)
    → (reader_next (w.beyond b.reader) b.reader).1 ≡ none
    → (up_round w b).latch ≡ b.latch
unfolding up_round
up_round-latch w b e = rw (e, up_round)

-- What the thread to the server leaves of a bridge.
pub record SameDown (b b' : Bridge) : Type 0 where
  pub same_client : b'.to_client ≡ b.to_client
  pub same_held : b'.held ≡ b.held
  pub same_source : b'.from_server ≡ b.from_server
  pub same_done : b'.down_done ≡ b.down_done
  pub same_closing : b'.closing ≡ b.closing

-- What a round of the thread to the server does to the latch: it leaves it or sets it.
pub data LatchMove (w : World) (b : Bridge) : Type 0 where
  over : SameDown b (up_round w b) → (up_round w b).latch ≡ b.latch → LatchMove w b
  sends :
      (style : Style)
      → SameDown b (up_round w b)
      → (up_round w b).latch ≡ latch_set b.latch style
      → LatchMove w b

pub up_round-SameDown : (w : World) (b : Bridge) → SameDown b (up_round w b)
unfolding up_round
up_round-SameDown w b = elim (Option-cases (reader_next (w.beyond b.reader) b.reader).1) [
  | inl end ↦
      rw (end, up_round)
        (record {
          same_client = refl;
          same_held = refl;
          same_source = refl;
          same_done = refl;
          same_closing = refl;
        })
  | inr (body, got) ↦
      rw (got, up_round)
        (record {
          same_client = refl;
          same_held = refl;
          same_source = refl;
          same_done = refl;
          same_closing = refl;
        })
]

pub up_round_cases : (w : World) (b : Bridge) → LatchMove w b
unfolding up_round
up_round_cases w b = elim (Option-cases (reader_next (w.beyond b.reader) b.reader).1) [
  | inl end ↦ over (up_round-SameDown w b) (rw (end, up_round))
  | inr (body, got) ↦
      sends (reader_next (w.beyond b.reader) b.reader).0.framing (up_round-SameDown w b)
        (rw (got, up_round))
]
