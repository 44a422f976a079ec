-- ===== src/Adapter/Bridge/Written.antt =====
-- adapter/displayxr_mcp.c: which of the server's replies the client was sent, in its framing.
use displayxr_mcp.Prelude.{
  ◌≡◌, refl, sym, ap, ◌∙◌, subst, true, false, Option, none, some, List, [], ◌∷◌, ◌++◌, append-nil,
  append_assoc, Bytes,
}
use displayxr_mcp.Wire.{adapter, read_frame}
use displayxr_mcp.Wire.RoundTrip.{read_frame-write_frame, read_frame-nil, Reads, stop, Reads-snoc}
use displayxr_mcp.Framing.{Style, encode}
use displayxr_mcp.Adapter.Bridge.{Bridge, World, close_down}
use displayxr_mcp.Adapter.Bridge.Turns.{SameDown}
use displayxr_mcp.Adapter.Bridge.Up.{encoded, frames}
use displayxr_mcp.Adapter.Bridge.Down.{encoded-append}
use displayxr_mcp.Adapter.Bridge.Relay.{AllReplies, none_ne_some}

-- What is still on its way: the frame that is held, and the frames behind it.
abbrev pub Coming : Option Bytes → List Bytes → Bytes → Type 0
Coming none rest source = source ≡ frames rest
Coming (some m) rest source = (later : List Bytes) × (rest ≡ m ∷ later) × (source ≡ frames later)

abbrev pub in_hand : Option Bytes → List Bytes
in_hand none = []
in_hand (some m) = m ∷ []

-- What was written of the server's replies `rs`. Until `main` closes the connection it is the first
-- of them, and the others are still on their way. From then on it is the first of them and, of the
-- frame that was held at the close and the frames that are read from what the abort leaves of the
-- rest, all but the one that is still held.
pub data Framed (w : World) (style : Style) (rs : List Bytes) (b : Bridge) : Type 0 where
  open_yet :
      (written rest : List Bytes)
      → b.closing ≡ false
      → rs ≡ written ++ rest
      → AllReplies rest
      → Coming b.held rest b.from_server
      → b.to_client ≡ encoded style written
      → Framed w style rs b
  closed :
      (written rest late read : List Bytes) (held : Option Bytes) (source : Bytes)
      → b.closing ≡ true
      → rs ≡ written ++ rest
      → Coming held rest source
      → Reads adapter (w.after_abort source) read b.from_server
      → in_hand held ++ read ≡ late ++ in_hand b.held
      → b.to_client ≡ encoded style (written ++ late)
      → Framed w style rs b

pub SameDown-Framed :
    (w : World) (style : Style) (rs : List Bytes) (b b' : Bridge)
    → SameDown b b'
    → Framed w style rs b
    → Framed w style rs b'
SameDown-Framed w style rs b b' s (open_yet written rest o r a c t) =
    open_yet written rest (s.same_closing ∙ o) r a
      (subst (λ h. Coming h rest b'.from_server) (sym s.same_held)
        (subst (Coming b.held rest) (sym s.same_source) c))
      (s.same_client ∙ t)
SameDown-Framed w style rs b b' s (closed written rest late read held source c r a q e t) =
    closed written rest late read held source (s.same_closing ∙ c) r a
      (subst (Reads adapter (w.after_abort source) read) (sym s.same_source) q)
      (e ∙ ap (λ h. late ++ in_hand h) (sym s.same_held)) (s.same_client ∙ t)

-- The next frame is read.
pub read-Framed :
    (w : World) (style : Style) (rs : List Bytes) (b : Bridge) (body tail : Bytes)
    → b.held ≡ none
    → read_frame adapter b.from_server ≡ some (body, tail)
    → Framed w style rs b
    → Framed w style rs (record b { from_server = tail; held = some body })
read-Framed w style rs b body tail h f (closed written rest late read held source c r a q e t) =
    closed written rest late (read ++ (body ∷ [])) held source c r a (Reads-snoc q f)
      (sym (append_assoc (in_hand held) read (body ∷ []))
        ∙ ap (λ l. l ++ (body ∷ [])) (e ∙ ap (λ x. late ++ in_hand x) h ∙ append-nil late))
      t
read-Framed w style rs b body tail h f (open_yet written [] o r a c t) =
    let source : b.from_server ≡ [] = subst (λ held. Coming held [] b.from_server) h c in
    absurd (none_ne_some (sym (read_frame-nil adapter) ∙ ap (read_frame adapter) (sym source) ∙ f))
read-Framed w style rs b body tail h f (open_yet written (m ∷ rest) o r a c t) =
    let source : b.from_server ≡ frames (m ∷ rest) =
      subst (λ held. Coming held (m ∷ rest) b.from_server) h c in
    let read = read_frame-write_frame adapter m (frames rest) a.0 a.1 in
    let e = sym f ∙ ap (read_frame adapter) source ∙ read in
    let same : m ≡ body = cc e in
    let behind : frames rest ≡ tail = cc e in
    open_yet written (m ∷ rest) o r a (rest, ap (λ x. x ∷ rest) same, sym behind) t

-- The thread to the client ends.
pub end-Framed :
    (w : World) (style : Style) (rs : List Bytes) (b : Bridge)
    → Framed w style rs b
    → Framed w style rs (record b { down_done = true })
end-Framed w style rs b (open_yet written rest o r a c t) = open_yet written rest o r a c t
end-Framed w style rs b (closed written rest late read held source c r a q e t) =
    closed written rest late read held source c r a q e t

-- A reply more, in the client's framing.
encoded-one :
    (style : Style) (ms : List Bytes) (m : Bytes)
    → encoded style ms ++ encode style m ≡ encoded style (ms ++ (m ∷ []))
encoded-one style ms m =
    ap (λ s. encoded style ms ++ s) (sym (append-nil (encode style m)))
    ∙ sym (encoded-append style ms (m ∷ []))

pub write-Framed :
    (w : World) (style : Style) (rs : List Bytes) (b : Bridge) (body : Bytes)
    → b.held ≡ some body
    → Framed w style rs b
    → Framed w style rs
        (record b { held = none; to_client = b.to_client ++ encode style body; down_done = false })
write-Framed w style rs b body h (closed written rest late read held source c r a q e t) =
    closed written rest (late ++ (body ∷ [])) read held source c r a q
      (e ∙ ap (λ x. late ++ in_hand x) h ∙ sym (append-nil (late ++ (body ∷ []))))
      (ap (λ s. s ++ encode style body) t
        ∙ encoded-one style (written ++ late) body
        ∙ ap (encoded style) (append_assoc written late (body ∷ [])))
write-Framed w style rs b body h (open_yet written rest o r a c t) =
    let (later, first, source) = subst (λ held. Coming held rest b.from_server) h c in
    open_yet (written ++ (body ∷ [])) later o
      (r ∙ ap (λ l. written ++ l) first ∙ sym (append_assoc written (body ∷ []) later))
      (subst AllReplies first a).2 source
      (ap (λ s. s ++ encode style body) t ∙ encoded-one style written body)

pub close-Framed :
    (w : World) (style : Style) (rs : List Bytes) (b : Bridge)
    → b.closing ≡ false
    → Framed w style rs b
    → Framed w style rs (close_down w b)
unfolding close_down
close-Framed w style rs b n (open_yet written rest o r a c t) =
    closed written rest [] [] b.held b.from_server refl r c stop (append-nil (in_hand b.held))
      (t ∙ ap (encoded style) (sym (append-nil written)))
close-Framed w style rs b n (closed written rest late read held source c r a q e t) =
    absurd (cc (n, c))
