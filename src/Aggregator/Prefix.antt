-- ===== src/Aggregator/Prefix.antt =====
-- adapter/workspace_aggregator.c: slugs and the sticky registry of tool-name prefixes.
pub mod Slug
pub mod Unique
use displayxr_mcp.Prelude.{
  ℕ, zero, suc, ◌+◌, ◌-◌, ◌≤◌, Bool, true, false, not, ◌&&◌, ◌||◌, Option, none, some, List, [],
  ◌∷◌, ◌++◌, length, take, drop, ltb, leb, ◌==◌, if◌then◌else◌, Bytes, ascii, str_eq,
}
use displayxr_mcp.Libc.{decimal}
use displayxr_mcp.Server.{is_alnum}
use displayxr_mcp.Wire.{lower}
use displayxr_mcp.Aggregator.{max_prefixes}

-- `out[n - 1]`; 0 for an empty buffer.
pub last_byte : Bytes → ℕ
last_byte [] = 0
last_byte (c ∷ []) = c
last_byte (c ∷ d ∷ cs) = last_byte (d ∷ cs)

abbrev pub is_empty : Bytes → Bool
is_empty [] = true
is_empty (c ∷ cs) = false

-- One round of the loop of `slugify`.
pub slug_byte : ℕ → Bytes → Bytes
unfolding last_byte lower
slug_byte c out =
    if is_alnum (lower c)
    then out ++ (lower c ∷ [])
    else (if not (is_empty out) && not (last_byte out == b'-') then out ++ (b'-' ∷ []) else out)

pub slug_loop : ℕ → Bytes → Bytes → Bytes
slug_loop cap [] out = out
slug_loop cap (c ∷ cs) out =
    let rest = slug_loop cap cs (slug_byte c out) in
    if ltb (length out + 1) cap && ltb (length out) 32 then rest else out

-- `while (n > 0 && out[n - 1] == '-') n--`
pub strip_dashes : Bytes → Bytes
strip_dashes [] = []
strip_dashes (c ∷ cs) = if is_empty (strip_dashes cs) && c == b'-' then [] else c ∷ strip_dashes cs

-- `slugify`, into a buffer of `cap` bytes.
pub slugify : ℕ → Bytes → Bytes
slugify cap s =
    let out = strip_dashes (slug_loop cap s []) in
    if is_empty out then take (cap - 1) (ascii "app") else out

-- The last path component of `exe_basename_for_pid`.
base_from : Bytes → Bytes → Bytes
base_from base [] = base
base_from base (c ∷ cs) = base_from (if c == b'/' || c == b'\\' then cs else base) cs

-- `strcasecmp (s, ".exe") == 0`
is_exe : Bytes → Bool
unfolding lower
is_exe (a ∷ b ∷ c ∷ d ∷ []) = a == b'.' && (lower b == b'e' && (lower c == b'x' && lower d == b'e'))
is_exe s = false

-- `exe_basename_for_pid` into a buffer of `cap` bytes, from the executable's path as the operating
-- system gives it (empty where it does not).
pub exe_basename : ℕ → Bytes → Bytes
unfolding base_from is_exe
exe_basename cap path =
    let out = take (cap - 1) (base_from path path) in
    if ltb 4 (length out) && is_exe (drop (length out - 4) out)
    then take (length out - 4) out
    else out

-- `prefix_in_use`
unfoldable pub prefix_in_use : List Bytes → Bytes → Bool
prefix_in_use [] p = false
prefix_in_use (q ∷ qs) p = if str_eq q p then true else prefix_in_use qs p

-- `reserve_prefix`
pub reserve_prefix : List Bytes → Bytes → List Bytes
reserve_prefix used p = if ltb (length used) max_prefixes then used ++ (p ∷ []) else used

-- "%s-%d"
unfoldable pub numbered : Bytes → ℕ → Bytes
numbered desired n = desired ++ (b'-' ∷ decimal n)

-- `sizeof(b->prefix) - 1` and `sizeof(candidate) - 1`.
abbrev pub prefix_room : ℕ
prefix_room = 39

abbrev pub candidate_room : ℕ
candidate_room = 47

-- The loop of `assign_prefix` from the suffix `n` on, for `rounds` more suffixes. `none`: all taken.
unfoldable pub search_prefix : List Bytes → Bytes → ℕ → ℕ → Option Bytes
search_prefix used desired zero n = none
search_prefix used desired (suc rounds) n =
    let rest = search_prefix used desired rounds (n + 1) in
    if prefix_in_use used (take candidate_room (numbered desired n))
    then rest
    else some (take prefix_room (take candidate_room (numbered desired n)))

-- `assign_prefix`: the prefix, and the registry after it.
pub assign_prefix : List Bytes → Bytes → Bytes × List Bytes
assign_prefix used desired =
    if not (prefix_in_use used desired)
    then (take prefix_room desired, reserve_prefix used (take prefix_room desired))
    else (elim (search_prefix used desired 98 2) [
      | none ↦ (take prefix_room (desired ++ ascii "-x"), used)
      | some p ↦ (p, reserve_prefix used p)
    ])
