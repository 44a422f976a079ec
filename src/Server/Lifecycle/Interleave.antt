-- ===== src/Server/Lifecycle/Interleave.antt =====
-- The slots under every interleaving of the accept loop with the client threads, and who is notified.
pub mod Flags
pub mod Notices
use displayxr_mcp.Prelude.{
  ℕ, ◌+◌, ◌<◌, ◌≡◌, ◌↔◌, ◌⊎◌, inl, inr, refl, Bool, true, false, some, List, [], ◌∷◌, length, arith,
  set, length-set, Option-cases,
}
use displayxr_mcp.Server.{Client, free_slot, Server, max_conns, broadcast, notify_tools_changed}
use displayxr_mcp.Server.Lifecycle.{
  free_index, accept, client_exit, update_slot, handshake, take_write, give_write,
}
use displayxr_mcp.Server.Lifecycle.Slots.{
  occupied, IsValid, accept-IsValid, client_exit-IsValid, update_slot-IsValid, free_index-none,
  free_index-some, occupied-set, occupied-client, occupied-no_client, occupied-le-length,
}

-- What can happen to the slots: the accept loop takes a connection, and a client's thread does the
-- handshake, takes or gives back its write mutex, or ends.
pub data Event : Type 0 where
  accepts : ℕ → Bool → Event
  shakes begins_write ends_write exits : ℕ → Event

module _ {Json : Type 0} where
  pub step : Server Json → Event → Server Json
  unfolding accept client_exit update_slot
  step s (accepts c spawned) = (accept s c spawned).0
  step s (shakes i) = update_slot s i handshake
  step s (begins_write i) = update_slot s i take_write
  step s (ends_write i) = update_slot s i give_write
  step s (exits i) = (client_exit s i).0

  pub run : Server Json → List Event → Server Json
  unfolding step
  run s [] = s
  run s (e ∷ es) = run (step s e) es

  step-IsValid : (s : Server Json) (e : Event) → IsValid s → IsValid (step s e)
  unfolding step
  step-IsValid s (accepts c spawned) v = accept-IsValid s c spawned v
  step-IsValid s (shakes i) v = update_slot-IsValid s i handshake (λ cl. refl) v
  step-IsValid s (begins_write i) v = update_slot-IsValid s i take_write (λ cl. refl) v
  step-IsValid s (ends_write i) v = update_slot-IsValid s i give_write (λ cl. refl) v
  step-IsValid s (exits i) v = client_exit-IsValid s i v

  -- However connections, handshakes, writes and ends of client threads interleave, from a state
  -- where it is so, the count of active clients stays the number of slots in use, and a free slot
  -- carries no flag.
  pub run-IsValid : (es : List Event) (s : Server Json) → IsValid s → IsValid (run s es)
  unfolding run
  run-IsValid [] s v = v
  run-IsValid (e ∷ es) s v = run-IsValid es (step s e) (step-IsValid s e v)

  -- While the count of active clients is the number of slots in use: if all eight are, a connection
  -- is closed and nothing changes. If not, it is taken and the count grows by one, or, where its
  -- thread does not start, it is closed and the count stays.
  pub accept_lem :
      (s : Server Json) (c : ℕ)
      → IsValid s
      → (s.active_clients ≡ max_conns → accept s c true ≡ (s, c ∷ []))
        × (s.active_clients < max_conns
            → ((accept s c true).1 ≡ [])
              × ((accept s c true).0.active_clients ≡ s.active_clients + 1)
              × ((accept s c false).1 ≡ c ∷ [])
              × ((accept s c false).0.active_clients ≡ s.active_clients))
  unfolding accept
  accept_lem s c v = elim (Option-cases (free_index s.clients 0)) [
    | inl full ↦ (
      λ e. ground (arith, full),
      λ lt. absurd (omega (arith, v.counted, v.slots, free_index-none s.clients 0 full)),
    )
    | inr (i, free) ↦ (
      λ e. absurd (omega (arith, v.counted, v.slots, room i free)),
      λ lt.
          (ground (arith, free), ground (arith, free), ground (arith, free), ground (arith, free)),
    )
  ]
    where
      room : (i : ℕ) → free_index s.clients 0 ≡ some i → occupied s.clients < length s.clients
      room i free =
          let (j, old, at, here, none') = free_index-some s.clients 0 {i = i} free in
          let new = record free_slot { conn = some c } in
          omega (
            arith,
            occupied-set s.clients j new {old = old} here,
            occupied-no_client old none',
            occupied-client new {c = c} refl,
            occupied-le-length (set s.clients j new),
            length-set s.clients j new,
          )
