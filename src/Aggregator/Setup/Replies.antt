-- ===== src/Aggregator/Setup/Replies.antt =====
-- adapter/workspace_aggregator.c: a request of the handshake finds its reply.
use displayxr_mcp.Prelude.{
  ℕ, zero, suc, ◌≡◌, refl, ap, ◌∙◌, Bool, true, false, none, some, List, [], ◌∷◌, ◌++◌, length,
  drop, ltb, if◌then◌else◌, not, inl, inr, Bool-cases, Bytes, arith,
}
use displayxr_mcp.Json.{Cjson}
use displayxr_mcp.Aggregator.Setup.{Request, request_id, is_reply, sync_wait, sync_request}

module _ (J : Cjson) (is_id : J.Json → ℕ → Bool) where
  open J use {Json, parse}

  -- Frames that hold messages other than the reply: notifications, and replies to other requests.
  abbrev pub AllOther : ℕ → List Bytes → Type 0
  AllOther id [] = Unit {0}
  AllOther id (body ∷ frames) =
      ((msg : Json) × (parse body ≡ some msg) × (is_reply J is_id id msg ≡ false))
      × AllOther id frames

  sync_wait-other :
      (id guard : ℕ) (body : Bytes) (frames : List Bytes) (msg : Json)
      → parse body ≡ some msg
      → is_reply J is_id id msg ≡ false
      → sync_wait J is_id id (suc guard) (body ∷ frames) ≡ sync_wait J is_id id guard frames
  unfolding sync_wait
  sync_wait-other id guard body frames msg p r = rw (p, sync_wait, r)

  sync_wait-reply :
      (id guard : ℕ) (body : Bytes) (frames : List Bytes) (msg : Json)
      → parse body ≡ some msg
      → is_reply J is_id id msg ≡ true
      → sync_wait J is_id id (suc guard) (body ∷ frames) ≡ (some msg, frames)
  unfolding sync_wait
  sync_wait-reply id guard body frames msg p r = rw (p, sync_wait, r)

  ltb-suc : (a b : ℕ) → ltb a b ≡ ltb (suc a) (suc b)
  ltb-suc a b = ground arith

  sync_wait_lem :
      (id guard : ℕ) (others : List Bytes) (body : Bytes) (rest : List Bytes) (msg : Json)
      → AllOther id others
      → parse body ≡ some msg
      → is_reply J is_id id msg ≡ true
      → sync_wait J is_id id guard (others ++ (body ∷ rest)) ≡ (
          if ltb (length others) guard
          then (some msg, rest)
          else (none, drop guard (others ++ (body ∷ rest))))
  unfolding sync_wait
  sync_wait_lem id zero [] body rest msg o p r = refl
  sync_wait_lem id zero (x ∷ xs) body rest msg o p r =
      let over : ltb (suc (length xs)) 0 ≡ false = ground arith in rw over
  sync_wait_lem id (suc guard) [] body rest msg o p r =
      let within : ltb 0 (suc guard) ≡ true = ground arith in
      rw within (sync_wait-reply id guard body rest msg p r)
  sync_wait_lem id (suc guard) (x ∷ xs) body rest msg ((m, q, k), o) p r =
      sync_wait-other id guard x (xs ++ (body ∷ rest)) m q k
      ∙ sync_wait_lem id guard xs body rest msg o p r
      ∙ ap (λ b. if b then (some msg, rest) else (none, drop guard (xs ++ (body ∷ rest))))
          (ltb-suc (length xs) guard)

  -- A request of the handshake takes its own reply, with what comes behind it left, if fewer than 16
  -- other messages come before it; with 16 or more of them it fails, with 16 read; and it reads
  -- nothing if the request cannot be written. Every frame up to the reply can be parsed.
  pub sync_request_lem :
      (writes : Request → Bool) (r : Request) (others : List Bytes) (body : Bytes)
      (rest : List Bytes) (msg : Json)
      → AllOther (request_id r) others
      → parse body ≡ some msg
      → is_reply J is_id (request_id r) msg ≡ true
      → sync_request J is_id writes r (others ++ (body ∷ rest)) ≡ (
          if not (writes r)
          then (none, others ++ (body ∷ rest))
          else (if ltb (length others) 16
              then (some msg, rest)
              else (none, drop 16 (others ++ (body ∷ rest)))))
  unfolding sync_request
  sync_request_lem writes r others body rest msg o p q = elim (Bool-cases (writes r)) [
    | inl sent ↦ rw sent (sync_wait_lem (request_id r) 16 others body rest msg o p q)
    | inr failed ↦ rw failed
  ]
