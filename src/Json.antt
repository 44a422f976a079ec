-- ===== src/Json.antt =====
-- What the program uses of the vendored cJSON library (external/cjson), as an interface: a type of
-- nodes, the calls that build and read them, and the documented behaviour that the program relies
-- on. A node is a value here; `cJSON_Duplicate` is the identity, and allocation does not fail.
pub mod Tree
use displayxr_mcp.Prelude.{
  ℕ, ◌^◌, ◌<◌, ◌≡◌, Bool, true, false, Option, none, some, List, [], ◌∷◌, ◌++◌, if◌then◌else◌,
  Bytes, str_eq,
}

-- The numbers that the program itself puts into a message: JSON-RPC ids and counters, and the
-- negated error codes.
pub data Number : Type 0 where
  pos neg : ℕ → Number

-- The first of two lookups that finds something.
abbrev pub first {ℓ} : {A : Type ℓ} → Option A → Option A → Option A
first none y = y
first (some x) y = some x

abbrev pub when {ℓ} : {A : Type ℓ} → Bool → A → Option A
when b x = if b then some x else none

pub record Cjson : Type 1 where
  pub Json : Type 0
  -- `cJSON_Parse` and `cJSON_ParseWithLength`; `cJSON_PrintUnformatted`.
  pub parse : Bytes → Option Json
  pub print : Json → Option Bytes
  -- `cJSON_CreateObject` and so on.
  pub object : Json
  pub array : Json
  pub null : Json
  pub boolean : Bool → Json
  pub string : Bytes → Json
  pub number : Number → Json
  -- `cJSON_AddItemToObject`, `cJSON_AddItemToArray`, `cJSON_ReplaceItemInObjectCaseSensitive`.
  pub add : Json → Bytes → Json → Json
  pub push : Json → Json → Json
  pub replace : Json → Bytes → Json → Json
  -- `cJSON_GetObjectItemCaseSensitive`, and the elements that `cJSON_ArrayForEach` visits.
  pub item : Json → Bytes → Option Json
  pub elements : Json → List Json
  -- `cJSON_IsString` with `valuestring`; `cJSON_IsNumber` with `(uint64_t)valuedouble`.
  pub string_value : Json → Option Bytes
  pub number_value : Json → Option ℕ
  -- `0 < valuedouble && valuedouble <= n`
  pub positive_upto : ℕ → Json → Bool
  pub is_object : Json → Bool
  pub is_array : Json → Bool
  pub is_true : Json → Bool
  -- A lookup finds the first member of that name; a new member goes to the end.
  pub item-object : (k : Bytes) → item object k ≡ none
  pub item-add :
      (o : Json) (k : Bytes) (v : Json) (j : Bytes)
      → is_object o ≡ true
      → item (add o k v) j ≡ first (item o j) (when (str_eq k j) v)
  pub item-replace :
      (o : Json) (k : Bytes) (v old : Json) (j : Bytes)
      → item o k ≡ some old
      → item (replace o k v) j ≡ (if str_eq k j then some v else item o j)
  pub is_object-object : is_object object ≡ true
  pub is_object-add : (o : Json) (k : Bytes) (v : Json) → is_object (add o k v) ≡ is_object o
  pub elements-array : elements array ≡ []
  pub is_array-array : is_array array ≡ true
  pub is_array-push : (a v : Json) → is_array (push a v) ≡ is_array a
  pub elements-push :
      (a v : Json) → is_array a ≡ true → elements (push a v) ≡ elements a ++ (v ∷ [])
  pub string_value-string : (s : Bytes) → string_value (string s) ≡ some s
  -- A double holds every integer below 2 ^ 53.
  pub number_value-number : (n : ℕ) → n < 2 ^ 53 → number_value (number (pos n)) ≡ some n
  pub is_true-boolean : (b : Bool) → is_true (boolean b) ≡ b
