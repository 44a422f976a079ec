-- ===== src/Adapter/Bridge/Down.antt =====
-- adapter/displayxr_mcp.c: what the thread from the server to standard output writes, as equations.
use displayxr_mcp.Prelude.{
  ◌≡◌, ◌≢◌, refl, sym, ap, ◌∙◌, false, none, some, List, [], ◌∷◌, ◌++◌, append_assoc, Bytes,
}
use displayxr_mcp.Framing.{Style, unknown, ndjson, content_length, encode, latch_look}
use displayxr_mcp.Adapter.Bridge.{Bridge, World, write_as}
use displayxr_mcp.Adapter.Bridge.Up.{TakesAll, encoded}

pub latch_look-some : (l s : Style) → latch_look l ≡ some s → (l ≡ s) × (l ≢ unknown)
unfolding latch_look
latch_look-some unknown s e = cc
latch_look-some ndjson s e = (cc, λ h. cc)
latch_look-some content_length s e = (cc, λ h. cc)

pub encoded-append :
    (style : Style) (ms ns : List Bytes)
    → encoded style (ms ++ ns) ≡ encoded style ms ++ encoded style ns
encoded-append style [] ns = refl
encoded-append style (m ∷ ms) ns =
    ap (◌++◌ (encode style m)) (encoded-append style ms ns)
    ∙ sym (append_assoc (encode style m) (encoded style ms) (encoded style ns))

pub write_as-TakesAll :
    (w : World) (b : Bridge) (body : Bytes) (style : Style)
    → TakesAll w.client_sink
    → write_as w b body style
      ≡ record b { held = none; to_client = b.to_client ++ encode style body; down_done = false }
unfolding write_as
write_as-TakesAll w b body style t = rw (t b.to_client (encode style body))
