-- ===== src/Server/Lifecycle/Interleave/Notices.antt =====
-- src/mcp_server.c: whom a change of the tools is announced to, by what the clients did before it.
use displayxr_mcp.Prelude.{
  ℕ, zero, suc, ◌+◌, ◌≡◌, ◌≢◌, inl, inr, refl, sym, ap, subst, ◌∙◌, Bool, not, ◌&&◌, some, List, [],
  ◌∷◌, if◌then◌else◌, ◌==◌, arith, get_elem?, Bool-cases, Option-cases,
}
use displayxr_mcp.Server.{Client, Server, broadcast, notify_tools_changed}
use displayxr_mcp.Server.Lifecycle.{accept, client_exit, update_slot}
use displayxr_mcp.Server.Lifecycle.Interleave.{
  Event, accepts, shakes, begins_write, ends_write, exits, step, run,
}
use displayxr_mcp.Server.Lifecycle.Interleave.Flags.{shaken, mid_write, AllStay, Holds, run-Holds}

-- How often `c` stands in the list.
abbrev pub times : ℕ → List ℕ → ℕ
times c [] = 0
times c (x ∷ xs) = (if x == c then 1 else 0) + times c xs

times-absent :
    (c : ℕ) (cls : List Client)
    → ((j : ℕ) (cl : Client) → get_elem? cls j ≡ some cl → cl.conn ≢ some c)
    → times c (broadcast cls) ≡ 0
unfolding broadcast
times-absent c [] h = refl
times-absent c (cl ∷ cls) h =
    let rest = times-absent c cls (λ j x g. h (suc j) x g) in
    elim (Option-cases cl.conn) [
      | inl free ↦ rw (free, rest)
      | inr (d, used) ↦
          let other : d ≢ c = λ e. h 0 cl refl (used ∙ ap some e) in
          ground (arith, used, other, rest)
    ]

times-Holds :
    (i c : ℕ) (init writ : Bool) (cls : List Client)
    → Holds i c init writ cls
    → times c (broadcast cls) ≡ (if init && not writ then 1 else 0)
unfolding broadcast
times-Holds i c init writ [] h = absurd (ground (arith, h.there))
times-Holds zero c init writ (cl ∷ cls) h =
    let rest = times-absent c cls (λ j x g e. cc (h.only (suc j) x g e)) in
    let same : cl ≡ record { conn = some c; initialized = init; writing = writ } = cc h.there in
    subst (λ x. times c (broadcast (x ∷ cls)) ≡ (if init && not writ then 1 else 0)) (sym same)
      (ground (arith, rest))
times-Holds (suc i) c init writ (cl ∷ cls) h =
    let rest =
      times-Holds i c init writ cls
        (record { there = h.there; only = λ j x g e. omega (arith, h.only (suc j) x g e) }) in
    elim (Option-cases cl.conn) [
      | inl free ↦ rw (free, rest)
      | inr (d, used) ↦
          let other : d ≢ c = λ e. cc (h.only 0 cl refl (used ∙ ap some e)) in
          ground (arith, used, other, rest)
    ]

module _ {Json : Type 0} where
  step-started : (s : Server Json) (e : Event) → (step s e).thread_started ≡ s.thread_started
  unfolding step accept client_exit update_slot
  step-started s (accepts c spawned) = ground arith
  step-started s (shakes j) = ground arith
  step-started s (begins_write j) = ground arith
  step-started s (ends_write j) = ground arith
  step-started s (exits j) = ground arith

  run-started : (es : List Event) (s : Server Json) → (run s es).thread_started ≡ s.thread_started
  unfolding run
  run-started [] s = refl
  run-started (e ∷ es) s = run-started es (step s e) ∙ step-started s e

  -- Slot `i` holds the connection `c`, and no other slot does. Whatever the accept loop and the
  -- clients' threads do from there, as long as this client does not leave and `c` is not given out
  -- again: a change of the tools is announced to `c` once, if the server has started, the client has
  -- done its handshake by then, and no write to it is under way; if not, it is not announced to `c`.
  pub notify_tools_changed-run :
      (s : Server Json) (es : List Event) (i c : ℕ) (init writ : Bool)
      → Holds i c init writ s.clients
      → AllStay i c es
      → times c (notify_tools_changed (run s es))
        ≡ (if s.thread_started && (shaken i init es && not (mid_write i writ es)) then 1 else 0)
  unfolding notify_tools_changed
  notify_tools_changed-run s es i c init writ h a =
      let sent = times-Holds i c _ _ (run s es).clients (run-Holds es s i c init writ a h) in
      elim (Bool-cases s.thread_started) [
        | inl on ↦ simp (run-started es s, on) sent
        | inr off ↦ simp (run-started es s, off)
      ]
