-- ===== src/Server/Rpc/Dispatch.antt =====
-- The dispatch of a request: who gets a reply, and what it carries.
use displayxr_mcp.Prelude.{
  ◌≡◌, inl, inr, Bool, ◌||◌, Option, none, some, Bytes, ascii, str_eq, arith, Option-cases,
  Bool-cases,
}
use displayxr_mcp.Json.{Cjson}
use displayxr_mcp.Server.{Server, find_tool}
use displayxr_mcp.Server.Rpc.{
  error_envelope, item?, string_value?, call_result, call_envelope, method_envelope, handle_request,
  invalid_request, method_not_found, invalid_params, server_error,
}
use displayxr_mcp.Server.Rpc.Envelope.{Answers, result_envelope-Answers, error_envelope-Answers}

module _ (J : Cjson) where
  open J use {Json, print, item, object, parse, string_value}

  call_envelope-Answers :
      (s : Server Json) (id : Json) (params : Option Json)
      → Answers J id (call_envelope J s id params)
  unfolding call_envelope
  call_envelope-Answers s id params =
      elim (Option-cases (string_value? J (item? J params (ascii "name")))) [
        | inl e ↦ rw (e, call_envelope) (error_envelope-Answers J id invalid_params _)
        | inr (name, e) ↦ elim (Option-cases (find_tool s name)) [
          | inl f ↦ rw (e, call_envelope, f) (error_envelope-Answers J id method_not_found _)
          | inr (t, f) ↦ elim (Option-cases (t.fn (item? J params (ascii "arguments")))) [
            | inl g ↦ rw (e, call_envelope, f, g) (error_envelope-Answers J id server_error _)
            | inr (inner, g) ↦
                rw (e, call_envelope, f, g) (result_envelope-Answers J id (call_result J inner))
          ]
        ]
      ]

  method_envelope-Answers :
      (version : Bytes) (s : Server Json) (method : Bytes) (id : Json) (params : Option Json)
      → Answers J id (method_envelope J version s method id params)
  unfolding method_envelope
  method_envelope-Answers version s method id params =
      elim (Bool-cases (str_eq method (ascii "initialize"))) [
        | inl e ↦ rw (e, method_envelope) (result_envelope-Answers J id _)
        | inr n ↦ elim (Bool-cases (str_eq method (ascii "ping"))) [
          | inl e ↦ rw (n, method_envelope, e) (result_envelope-Answers J id _)
          | inr n' ↦ elim (Bool-cases (str_eq method (ascii "tools/list"))) [
            | inl e ↦ rw (n, method_envelope, n', e) (result_envelope-Answers J id _)
            | inr n'' ↦ elim (Bool-cases (str_eq method (ascii "tools/call"))) [
              | inl e ↦ rw (n, method_envelope, n', n'', e) (call_envelope-Answers s id params)
              | inr m ↦
                  rw (n, method_envelope, n', n'', m)
                    (error_envelope-Answers J id method_not_found _)
            ]
          ]
        ]
      ]

  -- A notification, a message without an id, is never answered and changes nothing.
  handle_request-notification :
      (version : Bytes) (s : Server Json) (req : Json) (initialized : Bool)
      → item req (ascii "id") ≡ none
      → handle_request J version s req initialized ≡ (none, initialized)
  unfolding handle_request
  handle_request-notification version s req initialized h = rw (h, handle_request)

  handle_request-Answers :
      (version : Bytes) (s : Server Json) (req id : Json) (initialized : Bool)
      → item req (ascii "id") ≡ some id
      → (env : Json) × Answers J id env
        × ((handle_request J version s req initialized).0 ≡ print env)
  unfolding handle_request
  handle_request-Answers version s req id initialized h =
      elim (Option-cases (string_value? J (item req (ascii "method")))) [
        | inl e ↦ (
          error_envelope J (some id) invalid_request (ascii "invalid request: missing method"),
          error_envelope-Answers J id invalid_request _,
          rw (h, handle_request, e),
        )
        | inr (method, e) ↦ (
          method_envelope J version s method id (item req (ascii "params")),
          method_envelope-Answers version s method id (item req (ascii "params")),
          rw (h, handle_request, e),
        )
      ]

  handle_request-initialized :
      (version : Bytes) (s : Server Json) (req id : Json) (initialized : Bool)
      → item req (ascii "id") ≡ some id
      → (handle_request J version s req initialized).1
        ≡ (elim (string_value? J (item req (ascii "method"))) [
          | none ↦ initialized
          | some method ↦ str_eq method (ascii "initialize") || initialized
        ])
  unfolding handle_request
  handle_request-initialized version s req id initialized h =
      elim (Option-cases (string_value? J (item req (ascii "method")))) [
        | inl e ↦ rw (h, handle_request, e)
        | inr (method, e) ↦ ground (arith, h, e)
      ]

  -- A message without an id is never answered and leaves the client as it was. Any other message is
  -- answered by the print of a JSON-RPC response that carries its id and either a result or an
  -- error, whatever its method and parameters; the client counts as initialized after it exactly
  -- when it did before or the method is `initialize`.
  pub handle_request_lem :
      (version : Bytes) (s : Server Json) (req : Json) (initialized : Bool)
      → (item req (ascii "id") ≡ none
          → handle_request J version s req initialized ≡ (none, initialized))
        × ((id : Json)
            → item req (ascii "id") ≡ some id
            → ((env : Json) × Answers J id env
                × ((handle_request J version s req initialized).0 ≡ print env))
              × ((handle_request J version s req initialized).1
                  ≡ (elim (string_value? J (item req (ascii "method"))) [
                    | none ↦ initialized
                    | some method ↦ str_eq method (ascii "initialize") || initialized
                  ])))
  handle_request_lem version s req initialized = (
    handle_request-notification version s req initialized,
    λ id h. (
      handle_request-Answers version s req id initialized h,
      handle_request-initialized version s req id initialized h,
    ),
  )
