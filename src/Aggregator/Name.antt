-- ===== src/Aggregator/Name.antt =====
-- adapter/workspace_aggregator.c: joining and splitting `<prefix>__<tool>`.
use displayxr_mcp.Prelude.{
  ℕ, ◌+◌, ◌≤◌, ◌≡◌, ◌≢◌, refl, ap, ◌∙◌, ◌&&◌, Option, none, some, [], ◌∷◌, ◌++◌, length,
  length-append, take, take_all, ◌==◌, if◌then◌else◌, Bytes, arith,
}
use displayxr_mcp.Server.AppId.{IsSlug, IsSlugTail}

abbrev pub underscore : ℕ
underscore = b'_'

abbrev snoc_front : ℕ → Option (Bytes × Bytes) → Option (Bytes × Bytes)
snoc_front c none = none
snoc_front c (some (p, t)) = some (c ∷ p, t)

-- `strstr (full, "__")`: what stands before the first separator, and behind it.
pub split : Bytes → Option (Bytes × Bytes)
split [] = none
split (c ∷ []) = none
split (c ∷ d ∷ cs) =
    let rest = split (d ∷ cs) in
    if c == underscore && d == underscore then some ([], cs) else snoc_front c rest

-- The checks of `handle_tools_call`: neither side may be empty.
unfoldable pub split_name : Bytes → Option (Bytes × Bytes)
unfolding split
split_name full = elim (split full) [
  | none ↦ none
  | some (p, t) ↦ elim p [
    | [] ↦ none
    | c ∷ cs ↦ elim t [ [] ↦ none | d ∷ ds ↦ some (c ∷ cs, d ∷ ds) ]
  ]
]

-- "%s__%s" in full, and in the 128 bytes of `prefixed`.
unfoldable pub join : Bytes → Bytes → Bytes
join prefix name = prefix ++ (underscore ∷ underscore ∷ name)

unfoldable pub prefixed : Bytes → Bytes → Bytes
unfolding join
prefixed prefix name = take 127 (join prefix name)

-- No byte of a prefix is an underscore.
abbrev pub NoUnderscore : Bytes → Type 0
NoUnderscore [] = Unit {0}
NoUnderscore (c ∷ cs) = (c ≢ underscore) × NoUnderscore cs

split-join :
    (p t : Bytes) → NoUnderscore p → split (p ++ (underscore ∷ underscore ∷ t)) ≡ some (p, t)
unfolding split
split-join [] t h = refl
split-join (c ∷ []) t h = ground (arith, split-join [] t tt)
split-join (c ∷ d ∷ p) t h = ground (arith, split-join (d ∷ p) t h.1)

prefixed-join : (p t : Bytes) → length p + length t ≤ 125 → prefixed p t ≡ join p t
unfolding prefixed
prefixed-join p t l =
    take_all 127 (join p t) (omega (arith, length-append p (underscore ∷ underscore ∷ t)))

split_name-join :
    (p t : Bytes) → NoUnderscore p → p ≢ [] → t ≢ [] → split_name (join p t) ≡ some (p, t)
unfolding split_name join
split_name-join [] t n hp ht = absurd (hp refl)
split_name-join (c ∷ cs) [] n hp ht = absurd (ht refl)
split_name-join (c ∷ cs) (d ∷ ds) n hp ht = rw (split-join (c ∷ cs) (d ∷ ds) n, split_name)

-- A name that the aggregator lists is split back into the prefix and the tool's own name, if the
-- prefix has no underscore, neither part is empty and both fit the 127 bytes of a listed name. It
-- does not matter which bytes the tool's name has.
pub split_name-prefixed :
    (p t : Bytes)
    → NoUnderscore p
    → p ≢ []
    → t ≢ []
    → length p + length t ≤ 125
    → split_name (prefixed p t) ≡ some (p, t)
split_name-prefixed p t n hp ht l =
    ap split_name (prefixed-join p t l) ∙ split_name-join p t n hp ht

NoUnderscore-tail : (s : Bytes) → IsSlugTail s → NoUnderscore s
NoUnderscore-tail [] h = tt
NoUnderscore-tail (c ∷ cs) h = (ground (arith, h.0), NoUnderscore-tail cs h.1)

-- A slug has no underscore.
pub NoUnderscore-IsSlug : (s : Bytes) → IsSlug s → NoUnderscore s
NoUnderscore-IsSlug [] h = tt
NoUnderscore-IsSlug (c ∷ cs) h = (ground (arith, h.0), NoUnderscore-tail cs h.1)
