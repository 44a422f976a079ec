-- ===== src/Server/Lifecycle/Slots.antt =====
-- The client slots: the count of active clients is the number of slots in use.
use displayxr_mcp.Prelude.{
  ℕ, zero, suc, ◌+◌, ◌-◌, ◌≤◌, ◌≡◌, ◌⊎◌, inl, inr, refl, ◌∙◌, Bool, true, false, none, some, List,
  [], ◌∷◌, length, arith, Bool-cases, get_elem?, set, length-set, replicate, Option-cases,
}
use displayxr_mcp.Server.{initial, Client, free_slot, Server, max_conns}
use displayxr_mcp.Server.Lifecycle.{free_index, accept, client_exit, update_slot}

-- The slots in use.
pub occupied : List Client → ℕ
occupied [] = 0
occupied (cl ∷ cls) = elim cl.conn [ none ↦ occupied cls | some c ↦ suc (occupied cls) ]

-- A flag is only set in a slot in use.
abbrev pub IsClean : Client → Type 0
IsClean cl = cl.conn ≡ none → (cl.initialized ≡ false) × (cl.writing ≡ false)

abbrev pub AllClean : List Client → Type 0
AllClean [] = Unit {0}
AllClean (cl ∷ cls) = IsClean cl × AllClean cls

pub free_index-some :
    (cls : List Client) (k : ℕ) {i : ℕ}
    → free_index cls k ≡ some i
    → (j : ℕ) × (cl : Client) × (i ≡ k + j) × (get_elem? cls j ≡ some cl) × (cl.conn ≡ none)
unfolding free_index
free_index-some [] k h = cc
free_index-some (cl ∷ cls) k {i} h = elim (Option-cases cl.conn) [
  | inl free ↦ (0, cl, ground (arith, free), refl, free)
  | inr (c, used) ↦
      let (j, cl', e, at, free) = free_index-some cls (k + 1) {i = i} (ground (arith, used)) in
      (suc j, cl', omega arith, at, free)
]

pub free_index-none :
    (cls : List Client) (k : ℕ) → free_index cls k ≡ none → occupied cls ≡ length cls
unfolding free_index occupied
free_index-none [] k h = refl
free_index-none (cl ∷ cls) k h = ground (arith, free_index-none cls (k + 1))

pub occupied-set :
    (cls : List Client) (i : ℕ) (new : Client) {old : Client}
    → get_elem? cls i ≡ some old
    → occupied (set cls i new) + occupied (old ∷ []) ≡ occupied cls + occupied (new ∷ [])
unfolding occupied
occupied-set [] i new h = cc
occupied-set (cl ∷ cls) zero new h = ground arith
occupied-set (cl ∷ cls) (suc i) new {old} h = ground (arith, occupied-set cls i new {old = old} h)

AllClean-set :
    (cls : List Client) (i : ℕ) (new : Client)
    → AllClean cls
    → IsClean new
    → AllClean (set cls i new)
AllClean-set [] i new a c = tt
AllClean-set (cl ∷ cls) zero new a c = (c, a.1)
AllClean-set (cl ∷ cls) (suc i) new a c = (a.0, AllClean-set cls i new a.1 c)

pub occupied-le-length : (cls : List Client) → occupied cls ≤ length cls
unfolding occupied
occupied-le-length [] = omega arith
occupied-le-length (cl ∷ cls) = ground (arith, occupied-le-length cls)

-- The slots of a running server: as many as the source declares, counted right, and clean.
pub record IsValid {Json : Type 0} (s : Server Json) : Type 0 where
  pub slots : length s.clients ≡ max_conns
  pub counted : s.active_clients ≡ occupied s.clients
  pub clean : AllClean s.clients

AllClean-replicate : (k : ℕ) → AllClean (replicate k free_slot)
AllClean-replicate zero = tt
AllClean-replicate (suc k) = ((λ h. (refl, refl)), AllClean-replicate k)

pub initial-IsValid : (Json : Type 0) → IsValid (initial {Json = Json})
unfolding occupied
initial-IsValid Json = record { slots = refl; counted = refl; clean = AllClean-replicate max_conns }

pub occupied-client : (cl : Client) {c : ℕ} → cl.conn ≡ some c → occupied (cl ∷ []) ≡ 1
unfolding occupied
occupied-client cl h = ground arith

pub occupied-no_client : (cl : Client) → cl.conn ≡ none → occupied (cl ∷ []) ≡ 0
unfolding occupied
occupied-no_client cl h = ground arith

module _ {Json : Type 0} where
  -- What is left of a slot change when only the slot's flags change.
  put-IsValid :
      (s : Server Json) (i : ℕ) (old new : Client) (n : ℕ)
      → IsValid s
      → get_elem? s.clients i ≡ some old
      → IsClean new
      → n + occupied (old ∷ []) ≡ s.active_clients + occupied (new ∷ [])
      → IsValid (record s { clients = set s.clients i new; active_clients = n })
  put-IsValid s i old new n v h c e = record {
    slots = length-set s.clients i new ∙ v.slots;
    counted = omega (arith, v.counted, occupied-set s.clients i new {old = old} h);
    clean = AllClean-set s.clients i new v.clean c;
  }

  claim-IsValid :
      (s : Server Json) (c i : ℕ) (spawned : Bool)
      → IsValid s
      → free_index s.clients 0 ≡ some i
      → IsValid (accept s c spawned).0
  unfolding accept
  claim-IsValid s c i true v e =
      let (j, old, at, here, free) = free_index-some s.clients 0 {i = i} e in
      let at' : i ≡ j = omega arith in
      rw (e, accept)
        (put-IsValid s i old _ _ v (rw at' here) (λ h. absurd (cc))
          (omega (
            arith,
            occupied-no_client old free,
            occupied-client (record free_slot { conn = some c }) refl,
          )))
  claim-IsValid s c i false v e =
      let (j, old, at, here, free) = free_index-some s.clients 0 {i = i} e in
      let at' : i ≡ j = omega arith in
      rw (e, accept)
        (put-IsValid s i old free_slot s.active_clients v (rw at' here) (λ h. (refl, refl))
          (omega (arith, occupied-no_client old free, occupied-no_client free_slot refl)))

  pub accept-IsValid :
      (s : Server Json) (c : ℕ) (spawned : Bool) → IsValid s → IsValid (accept s c spawned).0
  unfolding accept
  accept-IsValid s c spawned v = elim (Option-cases (free_index s.clients 0)) [
    | inl full ↦ rw (full, accept) v
    | inr (i, e) ↦ claim-IsValid s c i spawned v e
  ]

  pub exit_used :
      (s : Server Json) (i : ℕ) (cl : Client) (c : ℕ)
      → get_elem? s.clients i ≡ some cl
      → cl.conn ≡ some c
      → cl.writing ≡ false
      → client_exit s i ≡ (
        record s { clients = set s.clients i free_slot; active_clients = s.active_clients - 1 },
        c ∷ [],
      )
  unfolding client_exit
  exit_used s i cl c h u w = ground arith

  exit_other :
      (s : Server Json) (i : ℕ) (cl : Client)
      → get_elem? s.clients i ≡ some cl
      → (cl.conn ≡ none) ⊎ (cl.writing ≡ true)
      → client_exit s i ≡ (s, [])
  unfolding client_exit
  exit_other s i cl h u = ground arith

  exit_outside :
      (s : Server Json) (i : ℕ) → get_elem? s.clients i ≡ none → client_exit s i ≡ (s, [])
  unfolding client_exit
  exit_outside s i h = ground arith

  pub client_exit-IsValid : (s : Server Json) (i : ℕ) → IsValid s → IsValid (client_exit s i).0
  client_exit-IsValid s i v = elim (Option-cases (get_elem? s.clients i)) [
    | inl out ↦ rw (exit_outside s i out) v
    | inr (cl, here) ↦ elim (Option-cases cl.conn) [
      | inl free ↦ rw (exit_other s i cl here (inl free)) v
      | inr (c, used) ↦ elim (Bool-cases cl.writing) [
        | inl busy ↦ rw (exit_other s i cl here (inr busy)) v
        | inr idle ↦ rw (exit_used s i cl c here used idle) (
            put-IsValid s i cl free_slot _ v here (λ h. (refl, refl))
              (omega (
                arith,
                v.counted,
                occupied-client cl used,
                occupied-no_client free_slot refl,
                occupied-set s.clients i free_slot {old = cl} here,
              )))
      ]
    ]
  ]

  update_used :
      (s : Server Json) (i : ℕ) (f : Client → Client) (cl : Client) (c : ℕ)
      → get_elem? s.clients i ≡ some cl
      → cl.conn ≡ some c
      → update_slot s i f ≡ record s { clients = set s.clients i (f cl) }
  unfolding update_slot
  update_used s i f cl c h u = ground arith

  update_free :
      (s : Server Json) (i : ℕ) (f : Client → Client) (cl : Client)
      → get_elem? s.clients i ≡ some cl
      → cl.conn ≡ none
      → update_slot s i f ≡ s
  unfolding update_slot
  update_free s i f cl h u = ground arith

  update_outside :
      (s : Server Json) (i : ℕ) (f : Client → Client)
      → get_elem? s.clients i ≡ none
      → update_slot s i f ≡ s
  unfolding update_slot
  update_outside s i f h = ground arith

  pub update_slot-IsValid :
      (s : Server Json) (i : ℕ) (f : Client → Client)
      → ((cl : Client) → (f cl).conn ≡ cl.conn)
      → IsValid s
      → IsValid (update_slot s i f)
  update_slot-IsValid s i f same v = elim (Option-cases (get_elem? s.clients i)) [
    | inl out ↦ rw (update_outside s i f out) v
    | inr (cl, here) ↦ elim (Option-cases cl.conn) [
      | inl free ↦ rw (update_free s i f cl here free) v
      | inr (c, used) ↦
          let kept : (f cl).conn ≡ some c = same cl ∙ used in
          rw (update_used s i f cl c here used) (
            put-IsValid s i cl (f cl) s.active_clients v here (λ h. cc)
              (omega (arith, occupied-client cl used, occupied-client (f cl) kept)))
    ]
  ]
