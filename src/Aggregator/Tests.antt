-- ===== src/Aggregator/Tests.antt =====
-- adapter/workspace_aggregator.c: the aggregator with one backend and one call.
use displayxr_mcp.Prelude.{
  ℕ, Bool, inl, inr, map, if◌then◌else◌, ◌==◌, ◌≡◌, refl, true, false, none, some, List, [], ◌∷◌,
  replicate, not, ltb, drop, Bytes, ascii, str_eq, arith,
}
use displayxr_mcp.Json.{Cjson, pos}
use displayxr_mcp.Json.Tree.{tree, Value}
use displayxr_mcp.Json.Tree as Tree
use displayxr_mcp.Server.AppId.{IsSlug}
use displayxr_mcp.Aggregator.{Backend, agent, Inflight, Aggregator, initial}
use displayxr_mcp.Aggregator.Ids.{alloc, fill, find, release}
use displayxr_mcp.Aggregator.Ids.Table.{IsValid, Added, initial-IsValid, alloc_lem}
use displayxr_mcp.Aggregator.Name.{prefixed, NoUnderscore}
use displayxr_mcp.Libc.{decimal}
use displayxr_mcp.Aggregator.Prefix.{numbered, assign_prefix, prefix_in_use, slugify}
use displayxr_mcp.Aggregator.Prefix.Slug.{slugify-IsSlug}
use displayxr_mcp.Aggregator.Prefix.Unique.{
  IsAssigned, assign_prefix_lem, assign_prefix-assign_prefix,
}
use displayxr_mcp.Aggregator.Backends.{on_response}
use displayxr_mcp.Aggregator.Agent.{route}
use displayxr_mcp.Aggregator.Membership.{
  poll_pids, contains, backend_known, connecting_remove, is_member,
}
use displayxr_mcp.Aggregator.Membership.Forget.{backend_known-connecting_remove}
use displayxr_mcp.Aggregator.Membership.Poll.{NoDup, Polled, poll_pids_lem}
use displayxr_mcp.Aggregator.Routing.{Routed, call_named-on_message, cross_response}
use displayxr_mcp.Wire.{newline}
use displayxr_mcp.Framing.{unknown, ndjson, Reader, encode}
use displayxr_mcp.Framing.Frames.Next.{received}
use displayxr_mcp.Aggregator.Run.{Surroundings, workspace_aggregator_run}
use displayxr_mcp.Aggregator.Run.Messages.{handled, workspace_aggregator_run_lem}
use displayxr_mcp.Aggregator.Setup.{backend_setup, is_reply, sync_request, initialize}
use displayxr_mcp.Aggregator.Setup.Replies.{sync_request_lem}
use displayxr_mcp.Aggregator.Setup.Ends.{Accounted, backend_setup-Accounted}
use displayxr_mcp.Aggregator.Teardown.{TornDown, teardown_lem}

abbrev game : Backend Value
game = record {
  alive = true;
  is_shell = false;
  pid = 40;
  prefix = ascii "game";
  app_id = ascii "game";
  conn = 5;
  tools = none;
}

-- One backend, and no call in flight.
abbrev idle : Aggregator Value
idle = record (initial false) { backends = some game ∷ [] }

idle-IsValid : IsValid idle
idle-IsValid =
    let v = initial-IsValid {Json = Value} false in
    record { below = v.below; distinct = v.distinct }

-- A call to the backend in slot 0 that is in flight.
abbrev call : Inflight Value
call = record { local_id = 1; backend = 0; kind = agent; orig_id = some (Tree.number (pos 9)) }

abbrev busy : Aggregator Value
busy = record idle { inflight = some call ∷ replicate 127 none; next_local_id = 1 }

alloc-idle : alloc idle 0 agent (some (Tree.number (pos 9))) ≡ some busy
unfolding alloc fill
alloc-idle = refl

busy-IsValid : IsValid busy
busy-IsValid =
    (alloc_lem idle 0 agent (some (Tree.number (pos 9))) busy idle-IsValid (omega arith)
      alloc-idle).valid

alloc_lem_example : Added idle 0 agent (some (Tree.number (pos 9))) busy
alloc_lem_example =
    alloc_lem idle 0 agent (some (Tree.number (pos 9))) busy idle-IsValid (omega arith) alloc-idle

abbrev jump_params : Value
jump_params = Tree.object (Tree.member (ascii "name") (Tree.string (ascii "game__jump")) Tree.end)

game-NoUnderscore : NoUnderscore (ascii "game")
game-NoUnderscore = (omega arith, (omega arith, (omega arith, (omega arith, tt))))

-- The backend's response to the call.
abbrev response : Value
response = Tree.object (Tree.member (ascii "id") (Tree.number (pos 1)) Tree.end)

call_named-on_message_example :
    Routed tree
      (λ c. true)
      idle
      (Tree.number (pos 9))
      (some jump_params)
      (prefixed (ascii "game") (ascii "jump"))
      (ascii "jump")
      0
      game
      busy
      response
unfolding prefixed str_eq route
call_named-on_message_example =
    call_named-on_message tree (λ c. true) idle (Tree.number (pos 9)) (some jump_params)
      (ascii "game") (ascii "jump") 0 game busy response (Tree.number (pos 1)) idle-IsValid
      (omega arith) game-NoUnderscore (λ h. cc) (λ h. cc) (omega arith) refl refl refl alloc-idle
      refl refl

cross_response_example :
    (on_response tree busy 1 Tree.null 1 ≡ (record busy { inflight = release busy.inflight 1 }, []))
    × (on_response tree (record busy { inflight = release busy.inflight 1 }) 0 Tree.null 1
        ≡ (record busy { inflight = release busy.inflight 1 }, []))
unfolding find
cross_response_example =
    cross_response tree busy 1 1 call Tree.null Tree.null busy-IsValid refl refl

teardown_lem_example : TornDown tree busy 0 1 call response
unfolding find
teardown_lem_example =
    teardown_lem tree busy 0 1 call response busy-IsValid (omega arith) refl refl refl

game_second : prefix_in_use (ascii "game" ∷ []) (numbered (ascii "game") 2) ≡ false
unfolding prefix_in_use str_eq numbered decimal
game_second = refl

assign_prefix_lem_example :
    IsAssigned
      (ascii "game" ∷ [])
      (assign_prefix (ascii "game" ∷ []) (ascii "game")).0
      (assign_prefix (ascii "game" ∷ []) (ascii "game")).1
assign_prefix_lem_example =
    assign_prefix_lem (ascii "game" ∷ []) (ascii "game") (omega arith) (omega arith)
      (inr (2, omega arith, omega arith, game_second))

-- A registry that is full.
abbrev many : List Bytes
many = replicate 128 (ascii "game")

assign_prefix-assign_prefix_example :
    (assign_prefix (assign_prefix many (ascii "tool")).1 (ascii "tool")).0
    ≡ (assign_prefix many (ascii "tool")).0
unfolding prefix_in_use str_eq
assign_prefix-assign_prefix_example =
    assign_prefix-assign_prefix many (ascii "tool") (omega arith) refl

slugify-IsSlug_example : IsSlug (slugify 40 (ascii "My App_2"))
slugify-IsSlug_example = slugify-IsSlug (ascii "My App_2")

poll_pids_lem_example :
    Polled 3 idle (3 ∷ 40 ∷ 41 ∷ 41 ∷ []) (poll_pids 3 idle (3 ∷ 40 ∷ 41 ∷ 41 ∷ []))
poll_pids_lem_example = poll_pids_lem 3 idle (3 ∷ 40 ∷ 41 ∷ 41 ∷ [])

abbrev connecting : Aggregator Value
connecting = record idle { connecting = 41 ∷ 42 ∷ [] }

connecting-NoDup : NoDup connecting.connecting
unfolding contains
connecting-NoDup = (refl, (refl, tt))

backend_known-connecting_remove_example :
    backend_known (connecting_remove connecting false 41) false 41 ≡ (
      if 41 == 41
      then is_member connecting.backends false 41
      else backend_known connecting false 41)
backend_known-connecting_remove_example =
    backend_known-connecting_remove connecting 41 41 connecting-NoDup

-- Is a node this number?
abbrev is_pos : Value → ℕ → Bool
is_pos v n = elim (tree.number_value v) [ none ↦ false | some m ↦ m == n ]

backend_setup-Accounted_example :
    Accounted idle 7 (backend_setup tree is_pos (λ r. true) idle false 41 (some 7) [] [] true)
backend_setup-Accounted_example =
    backend_setup-Accounted tree is_pos (λ r. true) idle false 41 7 [] [] true

-- A parser that knows two frames: an empty one, of a notification, and one with the response.
abbrev two_frames : Cjson
two_frames = record tree { parse = λ s. elim s [ [] ↦ some Tree.null | c ∷ cs ↦ some response ] }

response-IsReply : is_reply two_frames is_pos 1 response ≡ true
unfolding is_reply str_eq
response-IsReply = refl

null_other : is_reply two_frames is_pos 1 Tree.null ≡ false
unfolding is_reply str_eq
null_other = refl

sync_request_lem_example :
    sync_request two_frames is_pos (λ r. true) initialize ([] ∷ ascii "{}" ∷ []) ≡ (
      if not true
      then (none, [] ∷ ascii "{}" ∷ [])
      else (if ltb 1 16 then (some response, []) else (none, drop 16 ([] ∷ ascii "{}" ∷ []))))
sync_request_lem_example =
    sync_request_lem two_frames is_pos (λ r. true) initialize ([] ∷ []) (ascii "{}") [] response
      ((Tree.null, refl, null_other), tt) refl response-IsReply

-- An agent that sends one line, and nothing else going on.
abbrev agent_input : Reader
agent_input = record {
  buffer = [];
  capacity = 0;
  eof = false;
  framing = unknown;
  source = ascii "{" ∷ (b'}' ∷ newline ∷ []) ∷ [];
}

abbrev surroundings : Surroundings tree
surroundings = record {
  beyond = λ r. [];
  writes = λ c. true;
  version = ascii "1";
  description = [];
  others = λ n g. g;
}

workspace_aggregator_run_lem_example :
    ((workspace_aggregator_run tree surroundings false true agent_input).0 ≡ 0)
    × ((
      (workspace_aggregator_run tree surroundings false true agent_input).1.state,
      (workspace_aggregator_run tree surroundings false true agent_input).1.outputs,
    )
        ≡ handled tree surroundings 0 (map (received ndjson) (ascii "{}" ∷ [])) (initial false) [])
unfolding encode
workspace_aggregator_run_lem_example =
    workspace_aggregator_run_lem tree surroundings false ndjson (ascii "{}" ∷ []) agent_input
      (λ h. cc) ((_, refl, omega arith), tt)
      (record {
        more = refl;
        fits = omega arith;
        sized = inl refl;
        chunks = (omega arith, (omega arith, tt));
      })
      refl refl
