-- ===== src/Server/AppId.antt =====
-- The app id: what `mcp_server_set_app_id` accepts, and why `__` can separate it from a tool name.
use displayxr_mcp.Prelude.{
  ℕ, ◌≤◌, ◌≡◌, ◌≢◌, ◌↔◌, ◌⊎◌, inl, inr, refl, true, false, some, [], ◌∷◌, length, take_all, Bytes,
  str_eq_iff, arith, Bool-cases,
}
use displayxr_mcp.Server.{valid_tail, app_id_valid, set_app_id, Server, notify_tools_changed}

-- The manifest's grammar: [a-z0-9][a-z0-9-]{0,31}.
abbrev pub IsAlnum : ℕ → Type 0
IsAlnum c = ((b'a' ≤ c) × (c ≤ b'z')) ⊎ ((b'0' ≤ c) × (c ≤ b'9'))

abbrev pub IsSlugTail : Bytes → Type 0
IsSlugTail [] = Unit {0}
IsSlugTail (c ∷ cs) = (IsAlnum c ⊎ (c ≡ b'-')) × IsSlugTail cs

abbrev pub IsSlug : Bytes → Type 0
IsSlug [] = ⊥
IsSlug (c ∷ cs) = IsAlnum c × IsSlugTail cs × (length cs ≤ 31)

valid_tail→IsSlugTail : (s : Bytes) → valid_tail s ≡ true → IsSlugTail s
unfolding valid_tail
valid_tail→IsSlugTail [] h = tt
valid_tail→IsSlugTail (c ∷ cs) h = ground (arith, valid_tail→IsSlugTail cs)

IsSlugTail→valid_tail : (s : Bytes) → IsSlugTail s → valid_tail s ≡ true
unfolding valid_tail
IsSlugTail→valid_tail [] h = refl
IsSlugTail→valid_tail (c ∷ cs) h = ground (arith, IsSlugTail→valid_tail cs h.1)

-- `app_id_valid` accepts exactly the slugs of the manifest's grammar.
pub app_id_valid_iff : (id : Bytes) → (app_id_valid (some id) ≡ true) ↔ IsSlug id
unfolding app_id_valid
app_id_valid_iff [] = (λ h. absurd (cc), λ h. absurd h)
app_id_valid_iff (c ∷ cs) = (
  λ h. ground (arith, valid_tail→IsSlugTail cs),
  λ h. ground (arith, IsSlugTail→valid_tail cs h.1),
)

length-IsSlug : (id : Bytes) → IsSlug id → length id ≤ 32
length-IsSlug [] h = absurd h
length-IsSlug (c ∷ cs) h = omega (arith, h.2)

app_id_valid-not_IsSlug : (id : Bytes) → ¬ IsSlug id → app_id_valid (some id) ≡ false
app_id_valid-not_IsSlug id n = elim (Bool-cases (app_id_valid (some id))) [
  | inl yes' ↦ absurd (n ((app_id_valid_iff id).0 yes'))
  | inr no' ↦ no'
]

-- Setting an app id stores a slug whole, and notifies the clients if it differs from the stored
-- one; setting the stored id notifies no one. What is no slug is ignored: then neither the state
-- changes nor a client is notified.
pub set_app_id_lem :
    {Json : Type 0} (s : Server Json) (id : Bytes)
    → (IsSlug id → (set_app_id s (some id)).0 ≡ record s { app_id = id })
      × (IsSlug id → s.app_id ≢ id → (set_app_id s (some id)).1 ≡ notify_tools_changed s)
      × (s.app_id ≡ id → (set_app_id s (some id)).1 ≡ [])
      × (¬ IsSlug id → set_app_id s (some id) ≡ (s, []))
unfolding set_app_id
set_app_id_lem s id = (
  λ h. ground (
    arith,
    (app_id_valid_iff id).1 h,
    str_eq_iff s.app_id id,
    take_all 32 id (length-IsSlug id h),
  ),
  λ h n. ground (arith, (app_id_valid_iff id).1 h, str_eq_iff s.app_id id),
  λ e. ground (arith, str_eq_iff s.app_id id),
  λ n. ground (arith, app_id_valid-not_IsSlug id n),
)
