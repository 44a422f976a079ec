-- ===== src/Adapter/Bridge/Relay.antt =====
-- adapter/displayxr_mcp.c: the thread from the server to standard output relays every reply.
use displayxr_mcp.Prelude.{
  ℕ, suc, ◌+◌, ◌*◌, ◌≤◌, ◌<◌, ◌≡◌, refl, sym, ap, ◌∙◌, subst, false, Option, none, some, inl, inr,
  List, [], ◌∷◌, ◌++◌, length, append-nil, append_assoc, Bytes, arith, Bool-cases,
}
use displayxr_mcp.Wire.{adapter, max_frame, read_frame}
use displayxr_mcp.Wire.RoundTrip.{read_frame-write_frame, read_frame-nil}
use displayxr_mcp.Framing.{Style, unknown, ndjson, content_length, encode, latch_set, latch_look}
use displayxr_mcp.Framing.Frames.Next.{IsKnown}
use displayxr_mcp.Adapter.Bridge.{Bridge, World, Turn, up, down, close, up_round, turn, run}
use displayxr_mcp.Adapter.Bridge.Turns.{
  turn_up-done, turn_up-going, turn_down-read, turn_down-write, turn_down_cases, idle, ends, reads,
  writes, read_held-frame, write_held-known, up_round_cases, over, sends, SameDown,
  up_round-SameDown,
}
use displayxr_mcp.Adapter.Bridge.Up.{TakesAll, encoded, frames}
use displayxr_mcp.Adapter.Bridge.Down.{write_as-TakesAll}

pub none_ne_some {ℓ} : {A : Type ℓ} {a : A} → none ≡ some a → ⊥
none_ne_some e = cc

-- The interleavings before `main` closes the connection, and their turns of the thread to the client.
abbrev pub AllOpen : List Turn → Type 0
AllOpen [] = Unit {0}
AllOpen (up ∷ ts) = AllOpen ts
AllOpen (down ∷ ts) = AllOpen ts
AllOpen (close ∷ ts) = ⊥

abbrev pub downs : List Turn → ℕ
downs [] = 0
downs (up ∷ ts) = downs ts
downs (down ∷ ts) = suc (downs ts)
downs (close ∷ ts) = downs ts

-- Replies that the adapter relays: not empty, and of at most 16 MiB.
abbrev pub AllReplies : List Bytes → Type 0
AllReplies [] = Unit {0}
AllReplies (m ∷ ms) = (0 < length m) × (length m ≤ max_frame adapter) × AllReplies ms

-- The bridge while the server's replies are on the way: those before were written as `out`.
pub record Relays (style : Style) (held : Option Bytes) (ms : List Bytes) (out : Bytes) (b : Bridge)
    : Type 0 where
  pub going : b.down_done ≡ false
  pub style_is : b.latch ≡ style
  pub holds : b.held ≡ held
  pub coming : b.from_server ≡ frames ms
  pub so_far : b.to_client ≡ out

pub latch_set-known : (style s : Style) → IsKnown style → latch_set style s ≡ style
unfolding latch_set
latch_set-known unknown s k = absurd (k refl)
latch_set-known ndjson s k = refl
latch_set-known content_length s k = refl

latch_look-known : (style : Style) → IsKnown style → latch_look style ≡ some style
unfolding latch_look
latch_look-known unknown k = absurd (k refl)
latch_look-known ndjson k = refl
latch_look-known content_length k = refl

up_round-Relays :
    (w : World) (style : Style) (held : Option Bytes) (ms : List Bytes) (out : Bytes) (b : Bridge)
    → b.latch ≡ style
    → (up_round w b).latch ≡ style
    → SameDown b (up_round w b)
    → Relays style held ms out b
    → Relays style held ms out (up_round w b)
up_round-Relays w style held ms out b l l' s h = record {
  going = s.same_done ∙ h.going;
  style_is = l';
  holds = s.same_held ∙ h.holds;
  coming = s.same_source ∙ h.coming;
  so_far = s.same_client ∙ h.so_far;
}

turn_up-Relays :
    (w : World) (style : Style) (held : Option Bytes) (ms : List Bytes) (out : Bytes) (b : Bridge)
    → IsKnown style
    → Relays style held ms out b
    → Relays style held ms out (turn w up b)
turn_up-Relays w style held ms out b k h = elim (Bool-cases b.up_done) [
  | inl done ↦ subst (Relays style held ms out) (sym (turn_up-done w b done)) h
  | inr going ↦
      subst (Relays style held ms out) (sym (turn_up-going w b going)) (elim (up_round_cases w b) [
        | over s l ↦ up_round-Relays w style held ms out b h.style_is (l ∙ h.style_is) s h
        | sends f s l ↦
            up_round-Relays w style held ms out b h.style_is
              (l ∙ ap (λ t. latch_set t f) h.style_is ∙ latch_set-known style f k) s h
      ])
]

turn_down-Relays_read :
    (w : World) (style : Style) (m : Bytes) (ms : List Bytes) (out : Bytes) (b : Bridge)
    → 0 < length m
    → length m ≤ max_frame adapter
    → Relays style none (m ∷ ms) out b
    → Relays style (some m) ms out (turn w down b)
turn_down-Relays_read w style m ms out b lo hi h =
    let read : read_frame adapter b.from_server ≡ some (m, frames ms) =
      ap (read_frame adapter) h.coming ∙ read_frame-write_frame adapter m (frames ms) lo hi in
    subst (Relays style (some m) ms out)
      (sym (turn_down-read w b h.going h.holds ∙ read_held-frame w b m (frames ms) read))
      (record {
        going = h.going;
        style_is = h.style_is;
        holds = refl;
        coming = refl;
        so_far = h.so_far;
      })

turn_down-Relays_write :
    (w : World) (style : Style) (m : Bytes) (ms : List Bytes) (out : Bytes) (b : Bridge)
    → TakesAll w.client_sink
    → IsKnown style
    → Relays style (some m) ms out b
    → Relays style none ms (out ++ encode style m) (turn w down b)
turn_down-Relays_write w style m ms out b t k h =
    let look : latch_look b.latch ≡ some style =
      ap latch_look h.style_is ∙ latch_look-known style k in
    subst (Relays style none ms (out ++ encode style m))
      (sym (
        turn_down-write w b m h.going h.holds
        ∙ write_held-known w b m style look
        ∙ write_as-TakesAll w b m style t))
      (record {
        going = refl;
        style_is = h.style_is;
        holds = refl;
        coming = h.coming;
        so_far = ap (λ s. s ++ encode style m) h.so_far;
      })

-- All replies were relayed.
record Relayed (out : Bytes) (b : Bridge) : Type 0 where
  free : b.held ≡ none
  no_more : b.from_server ≡ []
  all : b.to_client ≡ out

turn_down-Relayed :
    (w : World) (out : Bytes) (b : Bridge) → Relayed out b → Relayed out (turn w down b)
turn_down-Relayed w out b h = elim (turn_down_cases w b) [
  | idle e ↦ subst (Relayed out) (sym e) h
  | ends e ↦
      subst (Relayed out) (sym e) (record { free = h.free; no_more = h.no_more; all = h.all })
  | reads body rest f r e ↦
      absurd
        (none_ne_some (sym (read_frame-nil adapter) ∙ ap (read_frame adapter) (sym h.no_more) ∙ r))
  | writes body style f l e ↦ absurd (none_ne_some (sym h.free ∙ f))
]

turn_up-Relayed : (w : World) (out : Bytes) (b : Bridge) → Relayed out b → Relayed out (turn w up b)
turn_up-Relayed w out b h = elim (Bool-cases b.up_done) [
  | inl done ↦ subst (Relayed out) (sym (turn_up-done w b done)) h
  | inr going ↦
      let s = up_round-SameDown w b in
      subst (Relayed out) (sym (turn_up-going w b going)) (record {
        free = s.same_held ∙ h.free;
        no_more = s.same_source ∙ h.no_more;
        all = s.same_client ∙ h.all;
      })
]

run-Relayed :
    (w : World) (ts : List Turn) (out : Bytes) (b : Bridge)
    → AllOpen ts
    → Relayed out b
    → Relayed out (run w ts b)
unfolding run
run-Relayed w [] out b o h = h
run-Relayed w (up ∷ ts) out b o h = run-Relayed w ts out (turn w up b) o (turn_up-Relayed w out b h)
run-Relayed w (down ∷ ts) out b o h =
    run-Relayed w ts out (turn w down b) o (turn_down-Relayed w out b h)
run-Relayed w (close ∷ ts) out b o h = absurd o

-- What is still to be written, and the turns that it takes.
abbrev pending : Style → Option Bytes → Bytes
pending style none = []
pending style (some m) = encode style m

abbrev turns : Option Bytes → ℕ
turns none = 0
turns (some m) = 1

run-Relays :
    (w : World) (style : Style) (ts : List Turn) (held : Option Bytes) (ms : List Bytes)
    (out : Bytes) (b : Bridge)
    → TakesAll w.client_sink
    → IsKnown style
    → AllOpen ts
    → AllReplies ms
    → Relays style held ms out b
    → 2 * length ms + turns held ≤ downs ts
    → Relayed (out ++ (pending style held ++ encoded style ms)) (run w ts b)
unfolding run
run-Relays w style ts none [] out b t k o a h l =
    subst (λ s. Relayed s (run w ts b)) (sym (append-nil out))
      (run-Relayed w ts out b o (record { free = h.holds; no_more = h.coming; all = h.so_far }))
run-Relays w style [] (some m) ms out b t k o a h l = absurd (omega (arith, l))
run-Relays w style [] none (m ∷ ms) out b t k o a h l = absurd (omega (arith, l))
run-Relays w style (close ∷ ts) held ms out b t k o a h l = absurd o
run-Relays w style (up ∷ ts) held ms out b t k o a h l =
    run-Relays w style ts held ms out (turn w up b) t k o a
      (turn_up-Relays w style held ms out b k h) l
run-Relays w style (down ∷ ts) none (m ∷ ms) out b t k o a h l =
    run-Relays w style ts (some m) ms out (turn w down b) t k o a.2
      (turn_down-Relays_read w style m ms out b a.0 a.1 h) (omega arith)
run-Relays w style (down ∷ ts) (some m) ms out b t k o a h l =
    subst (λ s. Relayed s (run w ts (turn w down b)))
      (append_assoc out (encode style m) (encoded style ms))
      (run-Relays w style ts none ms (out ++ encode style m) (turn w down b) t k o a
        (turn_down-Relays_write w style m ms out b t k h) (omega arith))

-- Once the client's framing is known, and while the connection is not closed, two turns of the thread
-- to the client for each reply that the server sends are enough: whatever the interleaving with the
-- thread to the server, exactly these replies are written to the client, in order and in its framing.
-- The thread runs, holds no frame, and what is still to come is the replies' frames; each reply has
-- at least one byte and at most 16 MiB, and standard output takes all that is written.
pub run-encoded :
    (w : World) (style : Style) (ts : List Turn) (ms : List Bytes) (out : Bytes) (b : Bridge)
    → TakesAll w.client_sink
    → IsKnown style
    → AllOpen ts
    → AllReplies ms
    → Relays style none ms out b
    → 2 * length ms ≤ downs ts
    → (run w ts b).to_client ≡ out ++ encoded style ms
run-encoded w style ts ms out b t k o a h l =
    (run-Relays w style ts none ms out b t k o a h (omega arith)).all
