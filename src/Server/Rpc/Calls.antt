-- ===== src/Server/Rpc/Calls.antt =====
-- `tools/call`: the handler that runs, and how its outcome is reported.
use displayxr_mcp.Prelude.{
  ◌≡◌, inl, inr, refl, ap, ◌∙◌, Bool, true, false, ◌&&◌, Option, none, some, List, [], ◌∷◌,
  if◌then◌else◌, Bytes, ascii, str_eq, Option-cases,
}
use displayxr_mcp.Json.{Cjson}
use displayxr_mcp.Server.{Tool, Server, find_tool}
use displayxr_mcp.Server.Rpc.{
  result_envelope, error_envelope, item?, string_value?, call_result, call_envelope,
  method_envelope, is_true?, or_empty, handle_request, method_not_found, server_error,
}
use displayxr_mcp.Server.Rpc.Envelope.{item-build}

module _ (J : Cjson) where
  open J use {Json, print, item, object, array, push, add, boolean, string, is_object, string_value}

  -- The handler flagged its result as a tool error.
  abbrev pub flagged : Json → Bool
  flagged inner = is_object inner && is_true? J (item inner (ascii "isError"))

  wrapped : Json → Bool → Json → Json
  wrapped content failed inner =
      let result = add object (ascii "content") content in
      add (if failed then add result (ascii "isError") (boolean true) else result)
        (ascii "structured") inner

  item-wrapped :
      (content inner : Json) (failed : Bool)
      → (item (wrapped content failed inner) (ascii "structured") ≡ some inner)
        × (item (wrapped content failed inner) (ascii "isError")
            ≡ (if failed then some (boolean true) else none))
        × (item (wrapped content failed inner) (ascii "content") ≡ some content)
  unfolding wrapped str_eq
  item-wrapped content inner true =
      let ms : List (Bytes × Json) =
        (ascii "content", content)
        ∷ (ascii "isError", boolean true)
        ∷ (ascii "structured", inner)
        ∷ [] in
      (item-build J ms _, item-build J ms _, item-build J ms _)
  item-wrapped content inner false =
      let ms : List (Bytes × Json) =
        (ascii "content", content) ∷ (ascii "structured", inner) ∷ [] in
      (item-build J ms _, item-build J ms _, item-build J ms _)

  -- The text that stands for the payload: its print, or nothing if it cannot be printed.
  abbrev pub payload_text : Json → Json
  payload_text inner =
      add (add object (ascii "type") (string (ascii "text"))) (ascii "text")
        (string (or_empty J (print inner)))

  item-call_result :
      (inner : Json)
      → (item (call_result J inner) (ascii "structured") ≡ some inner)
        × (item (call_result J inner) (ascii "isError")
            ≡ (if flagged inner then some (boolean true) else none))
        × (item (call_result J inner) (ascii "content") ≡ some (push array (payload_text inner)))
  unfolding call_result wrapped is_true? or_empty
  item-call_result inner = item-wrapped (push array (payload_text inner)) inner (flagged inner)

  -- A `tools/call` request for the tool `name` with the arguments `args`, which may be missing.
  pub record IsCall (req id : Json) (name : Bytes) (args : Option Json) : Type 0 where
    pub method : Json
    pub params : Json
    pub name_node : Json
    pub has_id : item req (ascii "id") ≡ some id
    pub has_method : item req (ascii "method") ≡ some method
    pub is_tools_call : string_value method ≡ some (ascii "tools/call")
    pub has_params : item req (ascii "params") ≡ some params
    pub has_name : item params (ascii "name") ≡ some name_node
    pub named : string_value name_node ≡ some name
    pub arguments : item params (ascii "arguments") ≡ args

  handle_request-call :
      (version : Bytes) (s : Server Json) (req id : Json) (name : Bytes) (args : Option Json)
      (initialized : Bool) (c : IsCall req id name args)
      → (handle_request J version s req initialized).0
        ≡ print (call_envelope J s id (some c.params))
  unfolding handle_request method_envelope str_eq string_value?
  handle_request-call version s req id name args initialized c =
      rw (c.has_id, handle_request, c.has_method, c.is_tools_call, c.has_params)

  -- The reply's envelope for each outcome of the lookup and of the handler.
  abbrev pub outcome_envelope : Json → Option (Tool Json) → Option Json → Json
  outcome_envelope id none args =
      error_envelope J (some id) method_not_found (ascii "tool not found")
  outcome_envelope id (some t) args = elim (t.fn args) [
    | none ↦ error_envelope J (some id) server_error (ascii "tool handler failed")
    | some inner ↦ result_envelope J (some id) (some (call_result J inner))
  ]

  call_envelope-named :
      (s : Server Json) (req id : Json) (name : Bytes) (args : Option Json)
      (c : IsCall req id name args)
      → call_envelope J s id (some c.params) ≡ outcome_envelope id (find_tool s name) args
  unfolding call_envelope item? string_value?
  call_envelope-named s req id name args c = elim (Option-cases (find_tool s name)) [
    | inl f ↦ rw (c.has_name, call_envelope, c.named, f)
    | inr (t, f) ↦ rw (c.has_name, call_envelope, c.named, f, c.arguments)
  ]

  -- A call of a tool runs the handler of the first tool registered under that name, on the call's
  -- arguments. If the handler returns a payload, the reply is a result whose `structured` is that
  -- payload, whose `content` is one text item with the payload's print, and which has `isError` set
  -- to true exactly when the payload is an object whose own `isError` is true. If it returns NULL
  -- the reply is the error -32000, and if there is no such tool the error -32601.
  pub tools_call_lem :
      (version : Bytes) (s : Server Json) (req id : Json) (name : Bytes) (args : Option Json)
      (initialized : Bool)
      → IsCall req id name args
      → (find_tool s name ≡ none
          → (handle_request J version s req initialized).0
            ≡ print (error_envelope J (some id) method_not_found (ascii "tool not found")))
        × ((t : Tool Json)
            → find_tool s name ≡ some t
            → (t.fn args ≡ none
                → (handle_request J version s req initialized).0
                  ≡ print (error_envelope J (some id) server_error (ascii "tool handler failed")))
              × ((inner : Json)
                  → t.fn args ≡ some inner
                  → (result : Json) × ((handle_request J version s req initialized).0
                      ≡ print (result_envelope J (some id) (some result)))
                    × (item result (ascii "structured") ≡ some inner)
                    × (item result (ascii "isError")
                        ≡ (if flagged inner then some (boolean true) else none))
                    × (item result (ascii "content") ≡ some (push array (payload_text inner)))))
  tools_call_lem version s req id name args initialized c =
      let reply = handle_request-call version s req id name args initialized c in
      let envelope = call_envelope-named s req id name args c in
      (
        λ f. reply ∙ ap print (envelope ∙ rw f refl),
        λ t f. (
          λ g. reply ∙ ap print (envelope ∙ rw (f, g) refl),
          λ inner g. (
            call_result J inner,
            reply ∙ ap print (envelope ∙ rw (f, g) refl),
            (item-call_result inner).0,
            (item-call_result inner).1,
            (item-call_result inner).2,
          ),
        ),
      )
