-- ===== src/Aggregator/Setup.antt =====
-- adapter/workspace_aggregator.c: the setup of a backend: the requests on its fresh connection
-- (`sync_request`), the handshake, and `backend_setup` with what is left when it ends. What the
-- backend sends is the list of its frames; whether a write succeeds, a connection is made or a
-- thread starts is an argument.
pub mod Replies
pub mod Ends
use displayxr_mcp.Prelude.{
  ℕ, zero, suc, Bool, true, false, not, Option, none, some, List, [], ◌∷◌, ◌++◌, take,
  if◌then◌else◌, Bytes, ascii, str_eq,
}
use displayxr_mcp.Json.{Cjson}
use displayxr_mcp.Server.Rpc.{item?, string_value?}
use displayxr_mcp.Aggregator.{Aggregator, Output, close}
use displayxr_mcp.Aggregator.Backends.{register_backend}
use displayxr_mcp.Aggregator.Membership.{connecting_remove}

-- The messages of the handshake.
pub data Request : Type 0 where
  initialize initialized list_tools : Request

-- The number of a request, as its reply has it.
abbrev pub request_id : Request → ℕ
request_id initialize = 1
request_id initialized = 0
request_id list_tools = 2

-- What the handshake has found out.
pub record Greeted (Json : Type 0) : Type 0 where
  pub app_id : Bytes
  pub tools : Option Json

-- `is_id` is `cJSON_IsNumber` with `valuedouble` equal to the number.
module _ (J : Cjson) (is_id : J.Json → ℕ → Bool) where
  open J use {Json, parse, item}

  -- Is a message the reply to the request with that number?
  unfoldable pub is_reply : ℕ → Json → Bool
  is_reply id msg = elim (item msg (ascii "id")) [ none ↦ false | some n ↦ is_id n id ]

  -- The loop of `sync_request`, with the frames behind those that it has read.
  pub sync_wait : ℕ → ℕ → List Bytes → Option Json × List Bytes
  unfolding is_reply
  sync_wait id zero frames = (none, frames)
  sync_wait id (suc guard) [] = (none, [])
  sync_wait id (suc guard) (body ∷ frames) = elim (parse body) [
    | none ↦ (none, frames)
    | some msg ↦ elim (is_reply id msg) [
      | true ↦ (some msg, frames)
      | false ↦ sync_wait id guard frames
    ]
  ]

  -- `sync_request`
  pub sync_request : (Request → Bool) → Request → List Bytes → Option Json × List Bytes
  unfolding sync_wait
  sync_request writes r frames =
      if writes r then sync_wait (request_id r) 16 frames else (none, frames)

  -- The app id of a reply, in `char app_id[33]`.
  pub app_id_of : Option Json → Bytes
  app_id_of node = elim (string_value? J node) [ none ↦ [] | some a ↦ take 32 a ]

  pub server_app_id : Json → Bytes
  unfolding app_id_of
  server_app_id init =
      app_id_of
        (item? J (item? J (item init (ascii "result")) (ascii "serverInfo")) (ascii "appId"))

  pub meta_app_id : Json → Bytes
  unfolding app_id_of
  meta_app_id reply =
      app_id_of
        (item? J (item? J (item reply (ascii "result")) (ascii "_meta")) (ascii "displayxr/appId"))

  -- What the two replies say.
  pub greeted : Json → Json → Greeted Json
  unfolding server_app_id meta_app_id
  greeted init reply = record {
    app_id = if str_eq (server_app_id init) [] then meta_app_id reply else server_app_id init;
    tools = item? J (item reply (ascii "result")) (ascii "tools");
  }

  -- The handshake of `backend_setup`: initialize, initialized, tools/list.
  pub handshake : (Request → Bool) → List Bytes → Option (Greeted Json)
  unfolding sync_request greeted
  handshake writes frames =
      let (init, rest) = sync_request writes initialize frames in
      let (reply, rest') = sync_request writes list_tools rest in
      elim init [ none ↦ none | some i ↦ elim reply [ none ↦ none | some r ↦ some (greeted i r) ] ]

  -- `backend_setup`, on the connection that was made, if any.
  pub backend_setup :
      (Request → Bool)
      → Aggregator Json
      → Bool
      → ℕ
      → Option ℕ
      → List Bytes
      → Bytes
      → Bool
      → Aggregator Json × List (Output Json)
  backend_setup writes g is_shell pid none frames path spawned =
      (connecting_remove g is_shell pid, [])
  backend_setup writes g is_shell pid (some conn) frames path spawned =
      elim (handshake writes frames) [
        | none ↦ (connecting_remove g is_shell pid, close conn ∷ [])
        | some h ↦
            let (g', out) = register_backend J g is_shell pid conn h.app_id h.tools path spawned in
            (connecting_remove g' is_shell pid, out)
      ]

module _ {Json : Type 0} where
  -- `spawn_setup`: what is left where the thread does not start.
  pub spawn_setup : Aggregator Json → Bool → ℕ → Bool → Aggregator Json
  spawn_setup g is_shell pid starts = if starts then g else connecting_remove g is_shell pid
