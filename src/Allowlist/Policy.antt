-- ===== src/Allowlist/Policy.antt =====
-- What the allowlist lets through, after `mcp_allowlist_init`.
use mathlib.Core.List.{Mem, mem-cons, not-mem-nil}
use mathlib.Core.Bool.{Bool-set}
use mathlib.Core.Logic.Or
use displayxr_mcp.Prelude.{
  ℕ, zero, suc, ◌≡◌, ◌↔◌, refl, sym, true, false, Option, none, some, List, [], ◌∷◌, length, take,
  ◌==◌, Bytes, arith, Bool-cases, inl, inr, ==_iff,
}
use displayxr_mcp.Libc.{Numeral, numeral}
use displayxr_mcp.Allowlist.{
  Abi, lp64, llp64, State, initial, max_entries, above_uint32_max, id_of, skip_separators, token,
  parse_entries, init, is_entry, allows,
}
use displayxr_mcp.Allowlist.Parse.{csv, Ids, parse_entries-csv}

is_entry→mem : (es : List ℕ) (id : ℕ) → is_entry es id ≡ true → Mem id es
unfolding is_entry
is_entry→mem [] id h = cc
is_entry→mem (e ∷ es) id h = elim (Bool-cases (e == id)) [
  | inl same ↦ mem-cons.1 (Or.inl (sym ((==_iff e id).0 same)))
  | inr other ↦ mem-cons.1 (Or.inr (is_entry→mem es id (ground (arith, other))))
]

is_entry_self : (id : ℕ) (es : List ℕ) → is_entry (id ∷ es) id ≡ true
unfolding is_entry
is_entry_self id es = ground arith

is_entry-cons : (e id : ℕ) (es : List ℕ) → is_entry es id ≡ true → is_entry (e ∷ es) id ≡ true
unfolding is_entry
is_entry-cons e id es h = ground arith

mem→is_entry : (es : List ℕ) (id : ℕ) → Mem id es → is_entry es id ≡ true
mem→is_entry [] id m = absurd (not-mem-nil m)
mem→is_entry (e ∷ es) id m =
    Or.elim (Bool-set _ _) (mem-cons.0 m) (λ s. rw s (is_entry_self e es))
      (λ r. is_entry-cons e id es (mem→is_entry es id r))

-- After an initialisation with no DISPLAYXR_MCP_ALLOW in the environment every client is allowed,
-- on either width of `long`.
pub allows-init_unset : (abi : Abi) (id : ℕ) → allows (init abi none initial) id ≡ true
unfolding allows init
allows-init_unset abi id = refl

-- Where `long` has 64 bits and the variable holds the documented form, a list of `uint32_t` ids with
-- commas between them (also the empty one), a client is allowed exactly when it is among the first
-- 64 ids of the list.
pub allows-init-csv :
    (ids : List ℕ) (id : ℕ)
    → Ids ids
    → (allows (init lp64 (some (csv ids)) initial) id ≡ true) ↔ Mem id (take max_entries ids)
unfolding allows init
allows-init-csv ids id h =
    rw (parse_entries-csv ids h)
      (is_entry→mem (take max_entries ids) id, mem→is_entry (take max_entries ids) id)

-- A second initialisation changes nothing, whatever the environment then holds.
pub init-init :
    (abi : Abi) (first second : Option Bytes) (s : State)
    → init abi second (init abi first s) ≡ init abi first s
unfolding init
init-init abi none none s = ground arith
init-init abi none (some b) s = ground arith
init-init abi (some a) none s = ground arith
init-init abi (some a) (some b) s = ground arith

id_of-llp64 : (n : Numeral) → id_of llp64 n ≡ none
unfolding id_of above_uint32_max
id_of-llp64 n = ground arith

token-llp64 : (c : ℕ) (cs : Bytes) (o : Option Numeral) → (token c cs o llp64).0 ≡ none
unfolding token
token-llp64 c cs none = refl
token-llp64 c cs (some n) = id_of-llp64 n

parse_step-llp64 :
    (fuel : ℕ) (p q : Bytes)
    → skip_separators p ≡ q
    → ((p' : Bytes) → parse_entries llp64 fuel p' [] ≡ [])
    → parse_entries llp64 (suc fuel) p [] ≡ []
unfolding parse_entries
parse_step-llp64 fuel p [] e ih = ground (arith, e)
parse_step-llp64 fuel p (c ∷ cs) e ih =
    ground
      (arith, e, token-llp64 c cs (numeral (c ∷ cs)), ih (token c cs (numeral (c ∷ cs)) llp64).1)

parse_entries-llp64 : (fuel : ℕ) (p : Bytes) → parse_entries llp64 fuel p [] ≡ []
unfolding parse_entries
parse_entries-llp64 zero p = refl
parse_entries-llp64 (suc fuel) p =
    parse_step-llp64 fuel p (skip_separators p) refl (parse_entries-llp64 fuel)

-- Where `long` has 32 bits, a variable that is set allows no client at all, whatever ids it lists.
pub allows-init_llp64 : (env : Bytes) (id : ℕ) → allows (init llp64 (some env) initial) id ≡ false
unfolding allows init is_entry
allows-init_llp64 env id = rw (parse_entries-llp64 (suc (length env)) env)
