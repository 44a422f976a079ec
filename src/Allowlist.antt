-- ===== src/Allowlist.antt =====
-- src/mcp_allowlist.c: the per-client allowlist, parsed once from DISPLAYXR_MCP_ALLOW.
pub mod Parse
pub mod Policy
mod Tests
use displayxr_mcp.Prelude.{
  ℕ, zero, suc, ◌-◌, ◌^◌, Bool, true, false, not, ◌&&◌, ◌||◌, Option, none, some, List, [], ◌∷◌,
  ◌++◌, length, ltb, leb, ◌==◌, if◌then◌else◌, Bytes,
}
use displayxr_mcp.Libc.{Numeral, numeral}

-- MAX_ENTRIES
abbrev pub max_entries : ℕ
max_entries = 64

-- The width of `long`: 64 bits on the POSIX targets, 32 bits on Windows.
pub data Abi : Type 0 where
  lp64 llp64 : Abi

-- LONG_MAX
abbrev pub long_max : Abi → ℕ
long_max lp64 = 2 ^ 63 - 1
long_max llp64 = 2 ^ 31 - 1

-- The file's static state; `n` is the length of `entries`.
pub record State : Type 0 where
  pub initialized : Bool
  pub has_policy : Bool
  pub entries : List ℕ

abbrev pub initial : State
initial = record { initialized = false; has_policy = false; entries = [] }

-- A value of `strtol` that is not negative, clamped to LONG_MAX; `none` is a negative one.
pub nonneg_long : Abi → Numeral → Option ℕ
nonneg_long abi n =
    if n.negative && ltb 0 n.magnitude
    then none
    else some (if ltb (long_max abi) n.magnitude then long_max abi else n.magnitude)

-- `v > (long)UINT32_MAX` for a `v` that is not negative. The cast keeps the value at 64 bits, and
-- makes it -1 at 32 bits.
pub above_uint32_max : Abi → ℕ → Bool
above_uint32_max lp64 v = ltb (2 ^ 32 - 1) v
above_uint32_max llp64 v = true

-- The id that a parsed number gives, if it is in range.
pub id_of : Abi → Numeral → Option ℕ
unfolding nonneg_long above_uint32_max
id_of abi n = elim (nonneg_long abi n) [
  | none ↦ none
  | some v ↦ if above_uint32_max abi v then none else some v
]

-- `while (*p == ' ' || *p == ',') p++`
pub skip_separators : Bytes → Bytes
skip_separators [] = []
skip_separators (c ∷ cs) = if c == b' ' || c == b',' then skip_separators cs else c ∷ cs

-- One `strtol` at a byte that is no separator: the id to append, if any, and the new `p`.
token : ℕ → Bytes → Option Numeral → Abi → Option ℕ × Bytes
unfolding id_of
token c cs none abi = (none, cs)
token c cs (some n) abi = (id_of abi n, n.rest)

abbrev pub snoc_option : List ℕ → Option ℕ → List ℕ
snoc_option es none = es
snoc_option es (some v) = es ++ (v ∷ [])

-- The outer loop, on fuel: the bytes left bound its rounds.
pub parse_entries : Abi → ℕ → Bytes → List ℕ → List ℕ
unfolding skip_separators token
parse_entries abi zero p es = es
parse_entries abi (suc fuel) p es = elim (leb max_entries (length es)) [
  | true ↦ es
  | false ↦ elim (skip_separators p) [
    | [] ↦ es
    | c ∷ cs ↦
        let (v, p') = token c cs (numeral (c ∷ cs)) abi in
        parse_entries abi fuel p' (snoc_option es v)
  ]
]

-- `mcp_allowlist_init`; `env` is `none` where the variable is unset.
unfoldable pub init : Abi → Option Bytes → State → State
unfolding parse_entries
init abi none s =
    if s.initialized then s else record { initialized = true; has_policy = false; entries = [] }
init abi (some env) s = if s.initialized then s else record {
  initialized = true;
  has_policy = true;
  entries = parse_entries abi (suc (length env)) env [];
}

-- `mcp_allowlist_has_policy`
pub has_policy : State → Bool
has_policy s = s.initialized && s.has_policy

pub is_entry : List ℕ → ℕ → Bool
is_entry [] id = false
is_entry (e ∷ es) id = if e == id then true else is_entry es id

-- `mcp_allowlist_allows`
pub allows : State → ℕ → Bool
unfolding is_entry
allows s id = if not s.initialized || not s.has_policy then true else is_entry s.entries id
