-- ===== src/Server/Rpc/Envelope.antt =====
-- What an agent reads from a reply: lookups in the objects that the server builds.
use displayxr_mcp.Prelude.{
  ◌≡◌, ◌⊎◌, inl, inr, ap, ◌∙◌, true, Option, none, some, List, [], ◌∷◌, if◌then◌else◌, Bytes, ascii,
  str_eq, arith,
}
use displayxr_mcp.Json.{Number, first, when, Cjson}
use displayxr_mcp.Server.Rpc.{result_envelope, error_envelope}

module _ (J : Cjson) where
  open J use {
    Json, object, string, number, add, item, is_object, item-add, item-object, is_object-object,
    is_object-add,
  }

  abbrev pub build : Json → List (Bytes × Json) → Json
  build o [] = o
  build o ((k, v) ∷ ms) = build (add o k v) ms

  -- The first of the members with a name.
  abbrev pub find_member : List (Bytes × Json) → Bytes → Option Json
  find_member [] j = none
  find_member ((k, v) ∷ ms) j = if str_eq k j then some v else find_member ms j

  first_assoc :
      (a : Option Json) (k j : Bytes) (v : Json) (ms : List (Bytes × Json))
      → first (first a (when (str_eq k j) v)) (find_member ms j)
        ≡ first a (find_member ((k, v) ∷ ms) j)
  first_assoc a k j v ms = ground arith

  item-build_onto :
      (ms : List (Bytes × Json)) (o : Json) (j : Bytes)
      → is_object o ≡ true
      → item (build o ms) j ≡ first (item o j) (find_member ms j)
  item-build_onto [] o j h = ground arith
  item-build_onto ((k, v) ∷ ms) o j h =
      item-build_onto ms (add o k v) j (is_object-add o k v ∙ h)
      ∙ ap (λ a. first a (find_member ms j)) (item-add o k v j h)
      ∙ first_assoc (item o j) k j v ms

  -- A lookup in a built object finds the first member of that name.
  pub item-build :
      (ms : List (Bytes × Json)) (j : Bytes) → item (build object ms) j ≡ find_member ms j
  item-build ms j =
      item-build_onto ms object j is_object-object
      ∙ ap (λ a. first a (find_member ms j)) (item-object j)

  pub is_object-build :
      (ms : List (Bytes × Json)) (o : Json) → is_object o ≡ true → is_object (build o ms) ≡ true
  is_object-build [] o h = h
  is_object-build ((k, v) ∷ ms) o h = is_object-build ms (add o k v) (is_object-add o k v ∙ h)

  -- A JSON-RPC response to the request `id`: it carries the id, and a result or an error, not both.
  pub record Answers (id env : Json) : Type 0 where
    pub version : item env (ascii "jsonrpc") ≡ some (string (ascii "2.0"))
    pub same_id : item env (ascii "id") ≡ some id
    pub outcome :
        ((r : Json) × (item env (ascii "result") ≡ some r) × (item env (ascii "error") ≡ none))
        ⊎ ((e : Json) × (item env (ascii "error") ≡ some e) × (item env (ascii "result") ≡ none))

  abbrev with_id : Json → Bytes → Json → List (Bytes × Json)
  with_id id k v = (ascii "jsonrpc", string (ascii "2.0")) ∷ (ascii "id", id) ∷ (k, v) ∷ []

  pub result_envelope-Answers : (id r : Json) → Answers id (result_envelope J (some id) (some r))
  unfolding result_envelope str_eq
  result_envelope-Answers id r = record {
    version = item-build (with_id id (ascii "result") r) (ascii "jsonrpc");
    same_id = item-build (with_id id (ascii "result") r) (ascii "id");
    outcome = inl (
      r,
      item-build (with_id id (ascii "result") r) (ascii "result"),
      item-build (with_id id (ascii "result") r) (ascii "error"),
    );
  }

  abbrev pub error_members : Number → Bytes → List (Bytes × Json)
  error_members code message = (ascii "code", number code) ∷ (ascii "message", string message) ∷ []

  pub error_envelope-Answers :
      (id : Json) (code : Number) (message : Bytes)
      → Answers id (error_envelope J (some id) code message)
  unfolding error_envelope str_eq
  error_envelope-Answers id code message =
      let e = build object (error_members code message) in
      record {
        version = item-build (with_id id (ascii "error") e) (ascii "jsonrpc");
        same_id = item-build (with_id id (ascii "error") e) (ascii "id");
        outcome = inr (
          e,
          item-build (with_id id (ascii "error") e) (ascii "error"),
          item-build (with_id id (ascii "error") e) (ascii "result"),
        );
      }

  -- The result and the error of an envelope.
  pub item-result_envelope :
      (id r : Json) → item (result_envelope J (some id) (some r)) (ascii "result") ≡ some r
  unfolding result_envelope str_eq
  item-result_envelope id r = item-build (with_id id (ascii "result") r) (ascii "result")
