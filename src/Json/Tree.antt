-- ===== src/Json/Tree.antt =====
-- A concrete cJSON for examples: JSON values as trees. Its `parse` knows no text, and its `print`
-- writes only strings; the examples hand the code parsed messages.
use displayxr_mcp.Prelude.{
  ℕ, ◌≡◌, refl, Bool, true, false, Option, none, some, List, [], ◌∷◌, ◌++◌, ap, arith,
  if◌then◌else◌, Bytes, str_eq, str_eq_iff, ltb, leb, ◌&&◌,
}
use displayxr_mcp.Json.{Number, pos, first, when, Cjson}

mutual
  pub data Value : Type 0 where
    null : Value
    boolean : Bool → Value
    number : Number → Value
    string : Bytes → Value
    array : Items → Value
    object : Members → Value

  pub data Items : Type 0 where
    nil : Items
    cons : Value → Items → Items

  pub data Members : Type 0 where
    end : Members
    member : Bytes → Value → Members → Members

abbrev lookup : Members → Bytes → Option Value
lookup end j = none
lookup (member k v m) j = if str_eq k j then some v else lookup m j

abbrev snoc_member : Members → Bytes → Value → Members
snoc_member end k v = member k v end
snoc_member (member j w m) k v = member j w (snoc_member m k v)

abbrev replace_member : Members → Bytes → Value → Members
replace_member end k v = end
replace_member (member j w m) k v =
    if str_eq j k then member k v m else member j w (replace_member m k v)

abbrev snoc_item : Items → Value → Items
snoc_item nil v = cons v nil
snoc_item (cons w m) v = cons w (snoc_item m v)

abbrev to_list : Items → List Value
to_list nil = []
to_list (cons v m) = v ∷ to_list m

abbrev pub item : Value → Bytes → Option Value
item (object m) j = lookup m j
item _ j = none

abbrev add : Value → Bytes → Value → Value
add (object m) k v = object (snoc_member m k v)
add w k v = w

abbrev pub push : Value → Value → Value
push (array m) v = array (snoc_item m v)
push w v = w

abbrev replace : Value → Bytes → Value → Value
replace (object m) k v = object (replace_member m k v)
replace w k v = w

abbrev elements : Value → List Value
elements (array m) = to_list m
elements _ = []

abbrev pub string_value : Value → Option Bytes
string_value (string s) = some s
string_value _ = none

abbrev number_value : Value → Option ℕ
number_value (number (pos n)) = some n
number_value _ = none

abbrev positive_upto : ℕ → Value → Bool
positive_upto n (number (pos k)) = ltb 0 k && leb k n
positive_upto n _ = false

abbrev is_object : Value → Bool
is_object (object m) = true
is_object _ = false

abbrev is_array : Value → Bool
is_array (array m) = true
is_array _ = false

abbrev is_true : Value → Bool
is_true (boolean b) = b
is_true _ = false

lookup-snoc_member :
    (m : Members) (k : Bytes) (v : Value) (j : Bytes)
    → lookup (snoc_member m k v) j ≡ first (lookup m j) (when (str_eq k j) v)
lookup-snoc_member end k v j = refl
lookup-snoc_member (member i w m) k v j = ground (arith, lookup-snoc_member m k v j)

pub item-add :
    (o : Value) (k : Bytes) (v : Value) (j : Bytes)
    → is_object o ≡ true
    → item (add o k v) j ≡ first (item o j) (when (str_eq k j) v)
item-add (object m) k v j h = lookup-snoc_member m k v j
item-add null k v j h = cc
item-add (boolean b) k v j h = cc
item-add (number b) k v j h = cc
item-add (string b) k v j h = cc
item-add (array b) k v j h = cc

lookup-replace_member :
    (m : Members) (k : Bytes) (v old : Value) (j : Bytes)
    → lookup m k ≡ some old
    → lookup (replace_member m k v) j ≡ (if str_eq k j then some v else lookup m j)
lookup-replace_member end k v old j h = cc
lookup-replace_member (member i w m) k v old j h =
    ground
      (arith, str_eq_iff i k, str_eq_iff i j, str_eq_iff k j, lookup-replace_member m k v old j)

pub item-replace :
    (o : Value) (k : Bytes) (v old : Value) (j : Bytes)
    → item o k ≡ some old
    → item (replace o k v) j ≡ (if str_eq k j then some v else item o j)
item-replace (object m) k v old j h = lookup-replace_member m k v old j h
item-replace null k v old j h = cc
item-replace (boolean b) k v old j h = cc
item-replace (number b) k v old j h = cc
item-replace (string b) k v old j h = cc
item-replace (array b) k v old j h = cc

pub is_object-add : (o : Value) (k : Bytes) (v : Value) → is_object (add o k v) ≡ is_object o
is_object-add (object m) k v = refl
is_object-add _ k v = refl

to_list-snoc_item : (m : Items) (v : Value) → to_list (snoc_item m v) ≡ to_list m ++ (v ∷ [])
to_list-snoc_item nil v = refl
to_list-snoc_item (cons w m) v = ap (◌∷◌ w) (to_list-snoc_item m v)

pub elements-push : (a v : Value) → is_array a ≡ true → elements (push a v) ≡ elements a ++ (v ∷ [])
elements-push (array m) v h = to_list-snoc_item m v
elements-push null v h = cc
elements-push (boolean b) v h = cc
elements-push (number b) v h = cc
elements-push (string b) v h = cc
elements-push (object b) v h = cc

pub is_array-push : (a v : Value) → is_array (push a v) ≡ is_array a
is_array-push (array m) v = refl
is_array-push _ v = refl

abbrev pub tree : Cjson
tree = record {
  Json = Value;
  parse = λ s. none;
  print = string_value;
  object = object end;
  array = array nil;
  null = null;
  boolean = boolean;
  string = string;
  number = number;
  add = add;
  push = push;
  replace = replace;
  item = item;
  elements = elements;
  string_value = string_value;
  number_value = number_value;
  positive_upto = positive_upto;
  is_object = is_object;
  is_array = is_array;
  is_true = is_true;
  item-object = λ k. refl;
  item-add = item-add;
  item-replace = item-replace;
  is_object-object = refl;
  is_object-add = is_object-add;
  elements-array = refl;
  is_array-array = refl;
  is_array-push = is_array-push;
  elements-push = elements-push;
  string_value-string = λ s. refl;
  number_value-number = λ n h. refl;
  is_true-boolean = λ b. refl;
}
