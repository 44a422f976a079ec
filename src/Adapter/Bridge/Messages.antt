-- ===== src/Adapter/Bridge/Messages.antt =====
-- adapter/displayxr_mcp.c: the latch while the client's messages come and when they end.
use displayxr_mcp.Prelude.{◌≡◌, sym, ap, ◌∙◌, subst, true, inl, inr, ◌⊎◌, List, [], ◌∷◌, Bytes}
use displayxr_mcp.Framing.{Style, unknown, ndjson, latch_set}
use displayxr_mcp.Framing.Frames.Next.{IsKnown}
use displayxr_mcp.Adapter.Bridge.{Bridge, World, up, close_down, turn}
use displayxr_mcp.Adapter.Bridge.Turns.{turn_up-done}
use displayxr_mcp.Adapter.Bridge.Up.{
  TakesAll, AllMessages, Sends, SameUp-Sends, SameUp, turn_up-Ended, turn_up-Sends,
  turn_up-latch_end, turn_up-latch_message,
}
use displayxr_mcp.Adapter.Bridge.Relay.{latch_set-known}

-- The latch is not set, or set to the client's framing.
abbrev pub IsClients : Style → Style → Type 0
IsClients style latch = (latch ≡ unknown) ⊎ (latch ≡ style)

-- Where the client's side stands: it has messages to send, or has sent its last and is at the end of
-- its input, or the thread to the server has ended. Behind the first message the latch is the
-- client's framing.
pub data Client (style : Style) (b : Bridge) : Type 0 where
  talks :
      (m : Bytes) (ms : List Bytes) (sent : Bytes)
      → AllMessages (m ∷ ms)
      → Sends style (m ∷ ms) sent b
      → IsClients style b.latch
      → Client style b
  stops : (sent : Bytes) → Sends style [] sent b → b.latch ≡ style → Client style b
  left : b.up_done ≡ true → b.latch ≡ style → Client style b

pub Client-IsClients : (style : Style) (b : Bridge) → Client style b → IsClients style b.latch
Client-IsClients style b (talks m ms sent a h l) = l
Client-IsClients style b (stops sent h l) = inr l
Client-IsClients style b (left d l) = inr l

pub latch_set-IsClients :
    (style latch : Style) → IsKnown style → IsClients style latch → latch_set latch style ≡ style
unfolding latch_set
latch_set-IsClients style latch k (inl e) = ap (λ l. latch_set l style) e
latch_set-IsClients style latch k (inr e) =
    ap (λ l. latch_set l style) e ∙ latch_set-known style style k

-- A message more, with what is left of them.
sent-Client :
    (style : Style) (ms : List Bytes) (sent : Bytes) (b : Bridge)
    → AllMessages ms
    → Sends style ms sent b
    → b.latch ≡ style
    → Client style b
sent-Client style [] sent b a h l = stops sent h l
sent-Client style (m ∷ ms) sent b a h l = talks m ms sent a h (inr l)

pub turn_up-Client :
    (w : World) (style : Style) (b : Bridge)
    → TakesAll w.server_sink
    → IsKnown style
    → Client style b
    → Client style (turn w up b)
turn_up-Client w style b t k (talks m ms sent a h l) =
    sent-Client style ms _ (turn w up b) a.1 (turn_up-Sends w style m ms sent b t k a.0 h)
      (turn_up-latch_message w style m ms sent b t k a.0 h ∙ latch_set-IsClients style b.latch k l)
turn_up-Client w style b t k (stops sent h l) =
    left (turn_up-Ended w style sent b h).ended (turn_up-latch_end w style sent b h ∙ l)
turn_up-Client w style b t k (left d l) = subst (Client style) (sym (turn_up-done w b d)) (left d l)

pub SameUp-Client :
    (style : Style) (b b' : Bridge)
    → SameUp b b'
    → b'.latch ≡ b.latch
    → Client style b
    → Client style b'
SameUp-Client style b b' s l (talks m ms sent a h c) =
    talks m ms sent a (SameUp-Sends style (m ∷ ms) sent b b' s h)
      (subst (IsClients style) (sym l) c)
SameUp-Client style b b' s l (stops sent h c) =
    stops sent (SameUp-Sends style [] sent b b' s h) (l ∙ c)
SameUp-Client style b b' s l (left d c) = left (s.same_done ∙ d) (l ∙ c)

pub turn_close-Client :
    (w : World) (style : Style) (b : Bridge)
    → IsKnown style
    → Client style b
    → b.up_done ≡ true
    → Client style (close_down w b)
unfolding close_down
turn_close-Client w style b k (talks m ms sent a h l) d = absurd (cc (h.going, d))
turn_close-Client w style b k (stops sent h l) d = absurd (cc (h.going, d))
turn_close-Client w style b k (left d' l) d =
    left d (ap (λ l. latch_set l ndjson) l ∙ latch_set-known style ndjson k)

pub done-latch : (style : Style) (b : Bridge) → Client style b → b.up_done ≡ true → b.latch ≡ style
done-latch style b (talks m ms sent a h l) d = absurd (cc (h.going, d))
done-latch style b (stops sent h l) d = l
done-latch style b (left d' l) d = l
