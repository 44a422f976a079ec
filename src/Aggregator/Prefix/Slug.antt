-- ===== src/Aggregator/Prefix/Slug.antt =====
-- adapter/workspace_aggregator.c: what `slugify` makes of any string is a slug.
use displayxr_mcp.Prelude.{
  ℕ, ◌+◌, ◌≤◌, ◌≡◌, refl, true, inl, inr, ◌⊎◌, [], ◌∷◌, ◌++◌, length, length-append, ltb, ◌==◌,
  if◌then◌else◌, Bytes, ascii, arith, Bool-cases, ltb→lt,
}
use displayxr_mcp.Server.{is_alnum}
use displayxr_mcp.Server.AppId.{IsAlnum, IsSlug, IsSlugTail}
use displayxr_mcp.Wire.{lower}
use displayxr_mcp.Aggregator.Prefix.{
  slug_byte, slug_loop, strip_dashes, slugify, last_byte, is_empty,
}

-- A slug or nothing, of any length.
abbrev Body : Bytes → Type 0
Body [] = Unit {0}
Body (c ∷ cs) = IsAlnum c × IsSlugTail cs

is_alnum→IsAlnum : (c : ℕ) → is_alnum c ≡ true → IsAlnum c
is_alnum→IsAlnum c h = ground arith

IsSlugTail-snoc :
    (s : Bytes) (c : ℕ) → IsSlugTail s → IsAlnum c ⊎ (c ≡ b'-') → IsSlugTail (s ++ (c ∷ []))
IsSlugTail-snoc [] c h k = (k, tt)
IsSlugTail-snoc (x ∷ xs) c h k = (h.0, IsSlugTail-snoc xs c h.1 k)

Body-slug_byte : (c : ℕ) (out : Bytes) → Body out → Body (slug_byte c out)
unfolding slug_byte
Body-slug_byte c [] h = elim (Bool-cases (is_alnum (lower c))) [
  | inl y ↦ rw y (is_alnum→IsAlnum (lower c) y, tt)
  | inr n ↦ rw n tt
]
Body-slug_byte c (x ∷ xs) h = elim (Bool-cases (is_alnum (lower c))) [
  | inl y ↦ rw y (h.0, IsSlugTail-snoc xs (lower c) h.1 (inl (is_alnum→IsAlnum (lower c) y)))
  | inr n ↦ elim (Bool-cases (last_byte (x ∷ xs) == b'-')) [
    | inl d ↦ rw (n, d) h
    | inr k ↦ rw (n, k) (h.0, IsSlugTail-snoc xs b'-' h.1 (inr refl))
  ]
]

length-slug_byte : (c : ℕ) (out : Bytes) → length (slug_byte c out) ≤ length out + 1
unfolding slug_byte
length-slug_byte c out =
    ground (arith, length-append out (lower c ∷ []), length-append out (b'-' ∷ []))

Body-slug_loop :
    (cap : ℕ) (s out : Bytes)
    → Body out
    → length out ≤ 32
    → Body (slug_loop cap s out) × (length (slug_loop cap s out) ≤ 32)
unfolding slug_loop
Body-slug_loop cap [] out h l = (h, l)
Body-slug_loop cap (c ∷ cs) out h l = elim (Bool-cases (ltb (length out) 32)) [
  | inl room ↦ elim (Bool-cases (ltb (length out + 1) cap)) [
    | inl more ↦
        rw (more, room)
          (Body-slug_loop cap cs (slug_byte c out) (Body-slug_byte c out h)
            (omega (arith, ltb→lt (length out) 32 room, length-slug_byte c out)))
    | inr last ↦ rw last (h, l)
  ]
  | inr full ↦ elim (Bool-cases (ltb (length out + 1) cap)) [
    | inl more ↦ rw (more, full) (h, l)
    | inr last ↦ rw last (h, l)
  ]
]

strip_dashes-IsSlugTail :
    (s : Bytes) → IsSlugTail s → IsSlugTail (strip_dashes s) × (length (strip_dashes s) ≤ length s)
unfolding strip_dashes
strip_dashes-IsSlugTail [] h = (tt, omega arith)
strip_dashes-IsSlugTail (c ∷ cs) h =
    let rest = strip_dashes-IsSlugTail cs h.1 in
    elim (Bool-cases (is_empty (strip_dashes cs))) [
      | inl e ↦ elim (Bool-cases (c == b'-')) [
        | inl d ↦ rw (e, d) (tt, omega arith)
        | inr k ↦ rw (e, k) ((h.0, rest.0), omega (arith, rest.1))
      ]
      | inr n ↦ rw n ((h.0, rest.0), omega (arith, rest.1))
    ]

strip_dashes-cons : (c : ℕ) (cs : Bytes) → IsAlnum c → strip_dashes (c ∷ cs) ≡ c ∷ strip_dashes cs
unfolding strip_dashes
strip_dashes-cons c cs h = ground arith

IsSlug-or_app :
    (out : Bytes)
    → Body out
    → length out ≤ 32
    → IsSlug (if is_empty (strip_dashes out) then ascii "app" else strip_dashes out)
unfolding strip_dashes
IsSlug-or_app [] h l = ground arith
IsSlug-or_app (c ∷ cs) h l =
    let tail = strip_dashes-IsSlugTail cs h.1 in
    rw (strip_dashes-cons c cs h.0) (h.0, tail.0, omega (arith, tail.1))

-- Whatever the string is, `slugify` into the 40 bytes of a prefix gives a slug: at least one byte and
-- at most 32, of a-z, 0-9 and `-`, the first of them no `-`.
pub slugify-IsSlug : (s : Bytes) → IsSlug (slugify 40 s)
unfolding slugify
slugify-IsSlug s =
    let body = Body-slug_loop 40 s [] tt (omega arith) in
    IsSlug-or_app (slug_loop 40 s []) body.0 body.1
