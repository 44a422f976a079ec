-- ===== src/Aggregator/Prefix/Unique.antt =====
-- adapter/workspace_aggregator.c: the prefixes that `assign_prefix` gives out are different.
use displayxr_mcp.Prelude.{
  ap, ℕ, zero, suc, ◌+◌, ◌≤◌, ◌<◌, ◌≡◌, ◌≢◌, ◌⊎◌, subst, ◌∙◌, true, false, inl, inr, none, some,
  List, [], ◌∷◌, ◌++◌, length, length-append, take, take_all, ltb, if◌then◌else◌, Bytes, str_eq,
  arith, Bool-cases, Option-cases,
}
use displayxr_mcp.Libc.{decimal}
use displayxr_mcp.Libc.Decimal.{length-decimal}
use displayxr_mcp.Aggregator.{max_prefixes}
use displayxr_mcp.Aggregator.Prefix.{
  prefix_in_use, reserve_prefix, numbered, search_prefix, assign_prefix, prefix_room,
  candidate_room,
}

-- A numbered slug fits its buffers.
length-numbered : (d : Bytes) (n : ℕ) → length d ≤ 32 → n < 100 → length (numbered d n) ≤ 35
unfolding numbered
length-numbered d n l h = omega (arith, length-append d (b'-' ∷ decimal n), length-decimal 1 n h)

take_prefix :
    (d : Bytes) (n : ℕ)
    → length d ≤ 32
    → n < 100
    → take prefix_room (take candidate_room (numbered d n)) ≡ numbered d n
take_prefix d n l h =
    let short = length-numbered d n l h in
    rw (
      take_all candidate_room (numbered d n) (omega arith),
      take_all prefix_room (numbered d n) (omega arith),
    )

take_candidate :
    (d : Bytes) (n : ℕ)
    → length d ≤ 32
    → n < 100
    → take candidate_room (numbered d n) ≡ numbered d n
take_candidate d n l h =
    take_all candidate_room (numbered d n) (omega (arith, length-numbered d n l h))

search_prefix-free :
    (used : List Bytes) (d : Bytes) (rounds n : ℕ) (p : Bytes)
    → length d ≤ 32
    → n + rounds ≤ 100
    → search_prefix used d rounds n ≡ some p
    → prefix_in_use used p ≡ false
unfolding search_prefix
search_prefix-free used d zero n p l b h = cc
search_prefix-free used d (suc rounds) n p l b h =
    let cut = take_candidate d n l (omega arith) in
    let whole = take_prefix d n l (omega arith) in
    elim (Bool-cases (prefix_in_use used (take candidate_room (numbered d n)))) [
      | inl taken ↦
          search_prefix-free used d rounds (n + 1) p l (omega arith) (ground (arith, taken))
      | inr free ↦
          let same : numbered d n ≡ p = ground (arith, free, whole) in
          subst (λ q. prefix_in_use used q ≡ false) (cut ∙ same) free
    ]

in_use-append :
    (used : List Bytes) (p q : Bytes)
    → prefix_in_use (used ++ (p ∷ [])) q ≡ (if prefix_in_use used q then true else str_eq p q)
unfolding prefix_in_use
in_use-append [] p q = ground arith
in_use-append (x ∷ xs) p q = ground (arith, in_use-append xs p q)

-- What the registry promises of a prefix `p` that is new in `used`, and of the registry `used'`
-- behind it.
abbrev pub IsAssigned : List Bytes → Bytes → List Bytes → Type 0
IsAssigned used p used' =
    (prefix_in_use used p ≡ false)
    × ((q : Bytes) → prefix_in_use used' q ≡ (if prefix_in_use used q then true else str_eq p q))

assigned :
    (used : List Bytes) (p : Bytes)
    → length used < max_prefixes
    → prefix_in_use used p ≡ false
    → IsAssigned used p (reserve_prefix used p)
unfolding reserve_prefix
assigned used p l f =
    let room : ltb (length used) max_prefixes ≡ true = ground arith in
    (f, λ q. rw room (in_use-append used p q))

-- One of the 99 spellings of the slug `d` is free: `d` itself, or `d` with a number from 2 to 99.
abbrev pub IsAvailable : List Bytes → Bytes → Type 0
IsAvailable used d =
    (prefix_in_use used d ≡ false)
    ⊎ ((n : ℕ) × (2 ≤ n) × (n < 100) × (prefix_in_use used (numbered d n) ≡ false))

-- The search finds a number that is free.
search_prefix-finds :
    (used : List Bytes) (d : Bytes) (rounds n k : ℕ)
    → length d ≤ 32
    → n + rounds ≤ 100
    → n ≤ k
    → k < n + rounds
    → prefix_in_use used (numbered d k) ≡ false
    → search_prefix used d rounds n ≢ none
unfolding search_prefix
search_prefix-finds used d zero n k l b lo hi f = absurd (omega (arith, lo, hi))
search_prefix-finds used d (suc rounds) n k l b lo hi f =
    let cut = take_candidate d n l (omega arith) in
    elim (Bool-cases (prefix_in_use used (take candidate_room (numbered d n)))) [
      | inr free ↦ λ e. ground (arith, free, e)
      | inl taken ↦
          let other : n ≢ k =
            λ e. cc (taken, cut, ap (λ i. prefix_in_use used (numbered d i)) e, f) in
          let later =
            search_prefix-finds used d rounds (n + 1) k l (omega arith) (omega (arith, other))
              (omega arith) f in
          λ e. ground (arith, taken, later, e)
    ]

-- While the registry has room and one of the 99 spellings of a slug of at most 32 bytes is free,
-- `assign_prefix` gives a prefix that was never given out before, and then the prefixes in use are
-- those of before and it.
pub assign_prefix_lem :
    (used : List Bytes) (d : Bytes)
    → length d ≤ 32
    → length used < max_prefixes
    → IsAvailable used d
    → IsAssigned used (assign_prefix used d).0 (assign_prefix used d).1
unfolding assign_prefix
assign_prefix_lem used d l r s =
    let whole : take prefix_room d ≡ d = take_all prefix_room d (omega arith) in
    elim (Bool-cases (prefix_in_use used d)) [
      | inr free ↦ rw (free, whole) (assigned used d r free)
      | inl taken ↦ elim (Option-cases (search_prefix used d 98 2)) [
        | inl full ↦ elim s [
          | inl bare ↦ absurd (cc (taken, bare))
          | inr (n, lo, hi, free) ↦
              absurd (search_prefix-finds used d 98 2 n l (omega arith) lo (omega arith) free full)
        ]
        | inr (p, e) ↦
            rw (taken, e) (assigned used p r (search_prefix-free used d 98 2 p l (omega arith) e))
      ]
    ]

assign_prefix-full :
    (used : List Bytes) (d : Bytes)
    → max_prefixes ≤ length used
    → prefix_in_use used d ≡ false
    → assign_prefix used d ≡ (take prefix_room d, used)
unfolding assign_prefix reserve_prefix
assign_prefix-full used d l f =
    let full : ltb (length used) max_prefixes ≡ false = ground arith in rw (f, full)

-- Once the registry is full, a slug that is not in it is given out again and again: the next backend
-- with the same slug gets the same prefix.
pub assign_prefix-assign_prefix :
    (used : List Bytes) (d : Bytes)
    → max_prefixes ≤ length used
    → prefix_in_use used d ≡ false
    → (assign_prefix (assign_prefix used d).1 d).0 ≡ (assign_prefix used d).0
assign_prefix-assign_prefix used d l f =
    let same : (assign_prefix used d).1 ≡ used = ap (λ t. t.1) (assign_prefix-full used d l f) in
    ap (λ u. (assign_prefix u d).0) same
