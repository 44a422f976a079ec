-- ===== src/Aggregator/Setup/Ends.antt =====
-- adapter/workspace_aggregator.c: what is left when the setup of a backend ends.
use displayxr_mcp.Prelude.{
  ℕ, zero, suc, ◌+◌, ◌<◌, ◌≡◌, refl, ap, ◌∙◌, Bool, true, false, Option, none, some, inl, inr, List,
  [], ◌∷◌, ◌++◌, length, Bytes, get_elem?, set, get_elem?-set_self, arith, Option-cases,
}
use displayxr_mcp.Json.{Cjson}
use displayxr_mcp.Aggregator.{Backend, Aggregator, Output, close}
use displayxr_mcp.Aggregator.Backends.{
  backend_at, put_backend, fail_calls, teardown, free_backend, register_backend,
}
use displayxr_mcp.Aggregator.Membership.{connecting_remove}
use displayxr_mcp.Aggregator.Setup.{Request, handshake, backend_setup}

-- What becomes of a connection: a backend in a slot that was free has it, or it is closed at the end
-- and the slots are as they were.
pub data Accounted {Json : Type 0} (g : Aggregator Json) (conn : ℕ)
    : Aggregator Json × List (Output Json) → Type 0 where
  kept :
      (idx : ℕ) (b : Backend Json) (g' : Aggregator Json) (out : List (Output Json))
      → get_elem? g.backends idx ≡ some none
      → backend_at g' idx ≡ some b
      → b.conn ≡ conn
      → Accounted g conn (g', out)
  closed :
      (g' : Aggregator Json) (out : List (Output Json))
      → ((i : ℕ) → backend_at g' i ≡ backend_at g i)
      → Accounted g conn (g', out ++ (close conn ∷ []))

module _ (J : Cjson) where
  open J use {Json}

  free_backend_lem :
      (bs : List (Option (Backend Json))) (i idx : ℕ)
      → free_backend J bs i ≡ some idx
      → (k : ℕ) × (idx ≡ i + k) × (get_elem? bs k ≡ some none) × (k < length bs)
  unfolding free_backend
  free_backend_lem [] i idx e = cc
  free_backend_lem (none ∷ bs) i idx e =
      let same : i ≡ idx = cc in (0, omega arith, refl, omega arith)
  free_backend_lem (some b ∷ bs) i idx e =
      let (k, sum, found, below) = free_backend_lem bs (i + 1) idx e in
      (suc k, omega (arith, sum), found, omega (arith, below))

  free_backend-zero :
      (bs : List (Option (Backend Json))) (idx : ℕ)
      → free_backend J bs 0 ≡ some idx
      → (get_elem? bs idx ≡ some none) × (idx < length bs)
  free_backend-zero bs idx e =
      let (k, sum, found, below) = free_backend_lem bs 0 idx e in
      let same : idx ≡ k = omega (arith, sum) in
      (ap (get_elem? bs) same ∙ found, omega (arith, below))

  backend_at-set :
      (g : Aggregator Json) (bs : List (Option (Backend Json))) (idx : ℕ)
      (slot : Option (Backend Json))
      → g.backends ≡ set bs idx slot
      → idx < length bs
      → backend_at g idx ≡ slot
  unfolding backend_at
  backend_at-set g bs idx slot e l =
      let at : get_elem? g.backends idx ≡ some slot =
        ap (λ xs. get_elem? xs idx) e ∙ get_elem?-set_self bs idx slot l in
      rw (at, backend_at)

  -- The same backends are found in the same slots.
  backend_at-backends :
      (g g' : Aggregator Json) (i : ℕ) → g'.backends ≡ g.backends → backend_at g' i ≡ backend_at g i
  unfolding backend_at
  backend_at-backends g g' i e = rw (ap (λ xs. get_elem? xs i) e, backend_at)

  -- A slot that was taken and given back is as it was.
  set-set-free :
      (bs : List (Option (Backend Json))) (idx : ℕ) (b : Option (Backend Json))
      → get_elem? bs idx ≡ some none
      → set (set bs idx b) idx none ≡ bs
  set-set-free [] idx b e = refl
  set-set-free (x ∷ xs) zero b e = let gone : x ≡ none = cc in rw gone refl
  set-set-free (x ∷ xs) (suc idx) b e = ap (◌∷◌ x) (set-set-free xs idx b e)

  register_backend-full :
      (g : Aggregator Json) (is_shell : Bool) (pid conn : ℕ) (app_id : Bytes) (tools : Option Json)
      (path : Bytes) (spawned : Bool)
      → free_backend J g.backends 0 ≡ none
      → register_backend J g is_shell pid conn app_id tools path spawned ≡ (g, close conn ∷ [])
  unfolding register_backend
  register_backend-full g is_shell pid conn app_id tools path spawned e = rw (e, register_backend)

  -- A backend whose thread did not start.
  teardown-Accounted :
      (g g' : Aggregator Json) (idx : ℕ) (b : Backend Json)
      → g'.backends ≡ set g.backends idx (some b)
      → get_elem? g.backends idx ≡ some none
      → idx < length g.backends
      → Accounted g b.conn (teardown J g' idx)
  unfolding teardown
  teardown-Accounted g g' idx b e found l =
      let taken = backend_at-set g' g.backends idx (some b) e l in
      rw (taken, teardown)
        (closed _ (fail_calls J idx g'.inflight).1 (λ i.
          backend_at-backends g _ i
            (ap (λ xs. set xs idx none) e ∙ set-set-free g.backends idx (some b) found)))

  register_backend-Accounted :
      (g : Aggregator Json) (is_shell : Bool) (pid conn : ℕ) (app_id : Bytes) (tools : Option Json)
      (path : Bytes) (spawned : Bool)
      → Accounted g conn (register_backend J g is_shell pid conn app_id tools path spawned)
  unfolding register_backend put_backend
  register_backend-Accounted g is_shell pid conn app_id tools path true =
      elim (Option-cases (free_backend J g.backends 0)) [
        | inl full ↦ rw (full, register_backend) (closed g [] (λ i. refl))
        | inr (idx, free) ↦
            let (found, below) = free_backend-zero g.backends idx free in
            rw (free, register_backend)
              (kept idx _ _ _ found (backend_at-set _ g.backends idx _ refl below) refl)
      ]
  register_backend-Accounted g is_shell pid conn app_id tools path false =
      elim (Option-cases (free_backend J g.backends 0)) [
        | inl full ↦ rw (full, register_backend) (closed g [] (λ i. refl))
        | inr (idx, free) ↦
            let (found, below) = free_backend-zero g.backends idx free in
            rw (free, register_backend) (teardown-Accounted g _ idx _ refl found below)
      ]

  connecting_remove-backends :
      (g : Aggregator Json) (is_shell : Bool) (pid : ℕ)
      → (connecting_remove g is_shell pid).backends ≡ g.backends
  unfolding connecting_remove
  connecting_remove-backends g true pid = refl
  connecting_remove-backends g false pid = refl

  connecting_remove-at :
      (g : Aggregator Json) (is_shell : Bool) (pid i : ℕ)
      → backend_at (connecting_remove g is_shell pid) i ≡ backend_at g i
  connecting_remove-at g is_shell pid i =
      backend_at-backends g (connecting_remove g is_shell pid) i
        (connecting_remove-backends g is_shell pid)

  connecting_remove-Accounted :
      (g : Aggregator Json) (is_shell : Bool) (pid conn : ℕ)
      (out : Aggregator Json × List (Output Json))
      → Accounted g conn out
      → Accounted g conn (connecting_remove out.0 is_shell pid, out.1)
  connecting_remove-Accounted g is_shell pid conn _ (kept idx b g' out f a c) =
      kept idx b (connecting_remove g' is_shell pid) out f
        (connecting_remove-at g' is_shell pid idx ∙ a) c
  connecting_remove-Accounted g is_shell pid conn _ (closed g' out same) =
      closed (connecting_remove g' is_shell pid) out
        (λ i. connecting_remove-at g' is_shell pid i ∙ same i)

  -- The setup of a backend loses no connection, whatever its handshake, its registration or the
  -- start of its thread come to: a slot that was free has it, or it is closed and the slots are as
  -- they were.
  pub backend_setup-Accounted :
      (is_id : Json → ℕ → Bool) (writes : Request → Bool) (g : Aggregator Json) (is_shell : Bool)
      (pid conn : ℕ) (frames : List Bytes) (path : Bytes) (spawned : Bool)
      → Accounted g conn
          (backend_setup J is_id writes g is_shell pid (some conn) frames path spawned)
  unfolding backend_setup
  backend_setup-Accounted is_id writes g is_shell pid conn frames path spawned =
      elim (Option-cases (handshake J is_id writes frames)) [
        | inl failed ↦
            rw (failed, backend_setup) (closed _ [] (λ i. connecting_remove-at g is_shell pid i))
        | inr (h, done) ↦
            rw (done, backend_setup)
              (connecting_remove-Accounted g is_shell pid conn _
                (register_backend-Accounted g is_shell pid conn h.app_id h.tools path spawned))
      ]
