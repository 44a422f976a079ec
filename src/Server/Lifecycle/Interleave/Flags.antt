-- ===== src/Server/Lifecycle/Interleave/Flags.antt =====
-- src/mcp_server.c: the slot of one client, by what it and the others do.
use displayxr_mcp.Prelude.{
  ℕ, ◌≡◌, ◌≢◌, inl, inr, refl, sym, ap, ◌∙◌, Bool, true, false, none, some, List, [], ◌∷◌,
  if◌then◌else◌, ◌==◌, arith, get_elem?, set, get_elem?-set, get_elem?-set_here, get_elem?-set_ne,
  Bool-cases, Option-cases,
}
use displayxr_mcp.Server.{Client, free_slot, Server}
use displayxr_mcp.Server.Lifecycle.{
  free_index, accept, client_exit, update_slot, handshake, take_write, give_write,
}
use displayxr_mcp.Server.Lifecycle.Slots.{free_index-some}
use displayxr_mcp.Server.Lifecycle.Interleave.{
  Event, accepts, shakes, begins_write, ends_write, exits, step, run,
}

-- What the history says of the slot `i`: whether its client has done the handshake, and whether it is
-- in the middle of a write.
abbrev pub shaken : ℕ → Bool → List Event → Bool
shaken i b [] = b
shaken i b (accepts c spawned ∷ es) = shaken i b es
shaken i b (shakes j ∷ es) = shaken i (if j == i then true else b) es
shaken i b (begins_write j ∷ es) = shaken i b es
shaken i b (ends_write j ∷ es) = shaken i b es
shaken i b (exits j ∷ es) = shaken i b es

abbrev pub mid_write : ℕ → Bool → List Event → Bool
mid_write i b [] = b
mid_write i b (accepts c spawned ∷ es) = mid_write i b es
mid_write i b (shakes j ∷ es) = mid_write i b es
mid_write i b (begins_write j ∷ es) = mid_write i (if j == i then true else b) es
mid_write i b (ends_write j ∷ es) = mid_write i (if j == i then false else b) es
mid_write i b (exits j ∷ es) = mid_write i b es

-- The client of slot `i` stays, and its connection `c` is not given out again.
abbrev pub AllStay : ℕ → ℕ → List Event → Type 0
AllStay i c [] = Unit {0}
AllStay i c (accepts d spawned ∷ es) = (d ≢ c) × AllStay i c es
AllStay i c (shakes j ∷ es) = AllStay i c es
AllStay i c (begins_write j ∷ es) = AllStay i c es
AllStay i c (ends_write j ∷ es) = AllStay i c es
AllStay i c (exits j ∷ es) = (j ≢ i) × AllStay i c es

-- Slot `i` holds the connection `c` with these flags, and no other slot holds it.
pub record Holds (i c : ℕ) (init writ : Bool) (cls : List Client) : Type 0 where
  pub there : get_elem? cls i ≡ some (record { conn = some c; initialized = init; writing = writ })
  pub only : (j : ℕ) (cl : Client) → get_elem? cls j ≡ some cl → cl.conn ≡ some c → j ≡ i

set-Holds :
    (i c k : ℕ) (init writ : Bool) (new : Client) (cls : List Client)
    → k ≢ i
    → new.conn ≢ some c
    → Holds i c init writ cls
    → Holds i c init writ (set cls k new)
set-Holds i c k init writ new cls n m h = record {
  there = get_elem?-set_ne cls k i new n ∙ h.there;
  only = λ j cl g e. elim (get_elem?-set cls k j new cl g) [
    | inl (same, at) ↦ absurd (m (sym (ap (λ x. x.conn) same) ∙ e))
    | inr old ↦ h.only j cl old e
  ];
}

flags-Holds :
    (i c : ℕ) (init writ init' writ' : Bool) (cls : List Client)
    → Holds i c init writ cls
    → Holds i c init' writ'
        (set cls i (record { conn = some c; initialized = init'; writing = writ' }))
flags-Holds i c init writ init' writ' cls h = record {
  there = get_elem?-set_here cls i _ _ h.there;
  only = λ j cl g e. elim (get_elem?-set cls i j _ cl g) [
    | inl (same, at) ↦ sym at
    | inr old ↦ h.only j cl old e
  ];
}

module _ {Json : Type 0} where
  -- A change of one slot's flags, in slot `i` or in another.
  update_slot_other :
      (s : Server Json) (i c j : ℕ) (init writ : Bool) (f : Client → Client)
      → ((cl : Client) → (f cl).conn ≡ cl.conn)
      → j ≢ i
      → Holds i c init writ s.clients
      → Holds i c init writ (update_slot s j f).clients
  unfolding update_slot
  update_slot_other s i c j init writ f same n h = elim (Option-cases (get_elem? s.clients j)) [
    | inl out ↦ rw (out, update_slot) h
    | inr (cl, at) ↦ elim (Option-cases cl.conn) [
      | inl free ↦ rw (at, update_slot, free) h
      | inr (d, used) ↦
          rw (at, update_slot, used)
            (set-Holds i c j init writ (f cl) s.clients n
              (λ e. n (h.only j cl at (sym (same cl) ∙ e))) h)
    ]
  ]

  update_slot_self :
      (s : Server Json) (i c : ℕ) (init writ : Bool) (f : Client → Client)
      → Holds i c init writ s.clients
      → (update_slot s i f).clients
        ≡ set s.clients i (f (record { conn = some c; initialized = init; writing = writ }))
  unfolding update_slot
  update_slot_self s i c init writ f h = rw (h.there, update_slot)

  -- The flags `init'` and `writ'` behind a change `f` of the slot `j`: those that `f` sets if it is
  -- slot `i`, those of before if not.
  update_slot-Holds :
      (s : Server Json) (i c j : ℕ) (init writ init' writ' : Bool) (f : Client → Client)
      → ((cl : Client) → (f cl).conn ≡ cl.conn)
      → ((j == i) ≡ true
          → f (record { conn = some c; initialized = init; writing = writ })
            ≡ record { conn = some c; initialized = init'; writing = writ' })
      → ((j == i) ≡ false → (init' ≡ init) × (writ' ≡ writ))
      → Holds i c init writ s.clients
      → Holds i c init' writ' (update_slot s j f).clients
  update_slot-Holds s i c j init writ init' writ' f same own other h = elim (Bool-cases (j == i)) [
    | inr ne ↦
        rw ((other ne).0, (other ne).1)
          (update_slot_other s i c j init writ f same (ground arith) h)
    | inl here ↦
        let at : j ≡ i = ground arith in
        rw (at, update_slot_self s i c init writ f h, own here)
          (flags-Holds i c init writ init' writ' s.clients h)
  ]

  shake-Holds :
      (s : Server Json) (i c j : ℕ) (init writ : Bool)
      → Holds i c init writ s.clients
      → Holds i c (if j == i then true else init) writ (update_slot s j handshake).clients
  shake-Holds s i c j init writ =
      update_slot-Holds s i c j init writ _ _ handshake (λ cl. refl) (λ e. simp e)
        (λ e. (simp e, refl))

  take-Holds :
      (s : Server Json) (i c j : ℕ) (init writ : Bool)
      → Holds i c init writ s.clients
      → Holds i c init (if j == i then true else writ) (update_slot s j take_write).clients
  take-Holds s i c j init writ =
      update_slot-Holds s i c j init writ _ _ take_write (λ cl. refl) (λ e. simp e)
        (λ e. (refl, simp e))

  give-Holds :
      (s : Server Json) (i c j : ℕ) (init writ : Bool)
      → Holds i c init writ s.clients
      → Holds i c init (if j == i then false else writ) (update_slot s j give_write).clients
  give-Holds s i c j init writ =
      update_slot-Holds s i c j init writ _ _ give_write (λ cl. refl) (λ e. simp e)
        (λ e. (refl, simp e))

  accept-Holds :
      (s : Server Json) (i c d : ℕ) (init writ spawned : Bool)
      → d ≢ c
      → Holds i c init writ s.clients
      → Holds i c init writ (accept s d spawned).0.clients
  unfolding accept
  accept-Holds s i c d init writ spawned n h = elim (Option-cases (free_index s.clients 0)) [
    | inl full ↦ rw (full, accept) h
    | inr (k, free) ↦
        let (j, old, at, here, none') = free_index-some s.clients 0 {i = k} free in
        let other : k ≢ i = λ e. taken (omega (arith, at, e)) here none' in
        elim (Bool-cases spawned) [
          | inl started ↦
              rw (free, accept, started)
                (set-Holds i c k init writ _ s.clients other (λ e. n (ground (arith, e))) h)
          | inr failed ↦
              rw (free, accept, failed)
                (set-Holds i c k init writ free_slot s.clients other (λ e. cc) h)
        ]
  ]
    where
      taken :
          {j : ℕ} {old : Client} → j ≡ i → get_elem? s.clients j ≡ some old → old.conn ≡ none → ⊥
      taken {j} {old} e here free =
          let same = sym here ∙ ap (get_elem? s.clients) e ∙ h.there in cc (same, free)

  exit-Holds :
      (s : Server Json) (i c j : ℕ) (init writ : Bool)
      → j ≢ i
      → Holds i c init writ s.clients
      → Holds i c init writ (client_exit s j).0.clients
  unfolding client_exit
  exit-Holds s i c j init writ n h = elim (Option-cases (get_elem? s.clients j)) [
    | inl out ↦ rw (out, client_exit) h
    | inr (cl, at) ↦ elim (Option-cases cl.conn) [
      | inl free ↦ rw (at, client_exit, free) h
      | inr (d, used) ↦ elim (Bool-cases cl.writing) [
        | inl busy ↦ rw (at, client_exit, used, busy) h
        | inr idle ↦
            rw (at, client_exit, used, idle)
              (set-Holds i c j init writ free_slot s.clients n (λ e. cc) h)
      ]
    ]
  ]

  pub run-Holds :
      (es : List Event) (s : Server Json) (i c : ℕ) (init writ : Bool)
      → AllStay i c es
      → Holds i c init writ s.clients
      → Holds i c (shaken i init es) (mid_write i writ es) (run s es).clients
  unfolding run step
  run-Holds [] s i c init writ a h = h
  run-Holds (accepts d spawned ∷ es) s i c init writ a h =
      run-Holds es (accept s d spawned).0 i c init writ a.1
        (accept-Holds s i c d init writ spawned a.0 h)
  run-Holds (shakes j ∷ es) s i c init writ a h =
      run-Holds es (update_slot s j handshake) i c (if j == i then true else init) writ a
        (shake-Holds s i c j init writ h)
  run-Holds (begins_write j ∷ es) s i c init writ a h =
      run-Holds es (update_slot s j take_write) i c init (if j == i then true else writ) a
        (take-Holds s i c j init writ h)
  run-Holds (ends_write j ∷ es) s i c init writ a h =
      run-Holds es (update_slot s j give_write) i c init (if j == i then false else writ) a
        (give-Holds s i c j init writ h)
  run-Holds (exits j ∷ es) s i c init writ a h =
      run-Holds es (client_exit s j).0 i c init writ a.1 (exit-Holds s i c j init writ a.0 h)
