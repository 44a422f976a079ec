-- ===== src/Capture/Handoff.antt =====
-- src/mcp_capture.c: what the waiting handler returns, and what the compositor sees.
use displayxr_mcp.Prelude.{
  ℕ, ◌≡◌, refl, Bool, true, false, Option, none, some, List, [], ◌∷◌, Bytes, arith, Bool-cases, inl,
  inr, if◌then◌else◌,
}
use displayxr_mcp.Capture.{Request, submit, resume, poll, complete, fit_path}

-- What happens while the handler waits: the compositor polls or completes, the handler is woken, or
-- its deadline passes.
pub data Event : Type 0 where
  polls wakes expires : Event
  completes : Bool → Event

-- What the handler returns, and the request then; `none` while it still waits.
pub wait : Request → List Event → Request × Option Bool
unfolding resume complete
wait r [] = (r, none)
wait r (polls ∷ es) = wait r es
wait r (completes success ∷ es) = wait (complete r success) es
wait r (expires ∷ es) = resume r true
wait r (wakes ∷ es) = let rest = wait r es in if r.done then resume r false else rest

-- The answer that the events themselves give: that of the last completion before the first wake-up
-- that follows a completion, unless the deadline passes before it.
pub verdict : Option Bool → List Event → Option Bool
verdict last [] = none
verdict last (polls ∷ es) = verdict last es
verdict last (completes success ∷ es) = verdict (some success) es
verdict last (expires ∷ es) = some false
verdict none (wakes ∷ es) = verdict none es
verdict (some success) (wakes ∷ es) = some success

-- The request's flags say what the last completion was.
abbrev Reports : Request → Option Bool → Type 0
Reports r none = r.done ≡ false
Reports r (some success) = (r.done ≡ true) × (r.success ≡ success)

wait-Reports :
    (r : Request) (last : Option Bool) (es : List Event)
    → Reports r last
    → (wait r es).1 ≡ verdict last es
unfolding wait verdict resume complete
wait-Reports r last [] h = refl
wait-Reports r last (polls ∷ es) h = wait-Reports r last es h
wait-Reports r last (completes success ∷ es) h =
    wait-Reports (complete r success) (some success) es (refl, refl)
wait-Reports r last (expires ∷ es) h = refl
wait-Reports r none (wakes ∷ es) h = simp h (wait-Reports r none es h)
wait-Reports r (some success) (wakes ∷ es) h = rw (h.0, h.1)

abbrev pub is_some : Option Bool → Bool
is_some none = false
is_some (some b) = true

wait-pending :
    (r : Request) (es : List Event) → is_some (wait r es).1 ≡ true → poll (wait r es).0 ≡ none
unfolding wait resume complete poll
wait-pending r [] h = cc
wait-pending r (polls ∷ es) h = wait-pending r es h
wait-pending r (completes success ∷ es) h = wait-pending (complete r success) es h
wait-pending r (expires ∷ es) h = refl
wait-pending r (wakes ∷ es) h = elim (Bool-cases r.done) [
  | inl d ↦ rw d
  | inr d ↦ ground (arith, d, wait-pending r es)
]

-- The compositor is given exactly the path, cut to its buffer, and the mode of a request that was
-- submitted. The handler returns what the events say: the answer of the last completion before its
-- first wake-up behind one, or failure if its deadline passes first; and once it has returned, the
-- compositor sees no request.
pub wait_lem :
    (r : Request) (path : Bytes) (mode : ℕ) (es : List Event)
    → (poll (submit r path mode) ≡ some (fit_path path, mode))
      × ((wait (submit r path mode) es).1 ≡ verdict none es)
      × (is_some (wait (submit r path mode) es).1 ≡ true
          → poll (wait (submit r path mode) es).0 ≡ none)
unfolding submit poll
wait_lem r path mode es =
    (refl, wait-Reports (submit r path mode) none es refl, wait-pending (submit r path mode) es)

-- A request that the compositor took before its deadline passed, and completes after the next one
-- was submitted, completes that next one: its handler returns the answer to the other request, and
-- no poll behind the completion gives the compositor its path.
pub stale_completion :
    (r : Request) (path path' : Bytes) (mode mode' : ℕ) (success : Bool)
    → let taken = submit r path mode in
      let next = submit (resume taken true).0 path' mode' in
      let late = complete next success in
      (poll taken ≡ some (fit_path path, mode))
      × ((resume taken true).1 ≡ some false)
      × ((resume late false).1 ≡ some success)
      × (poll late ≡ none)
unfolding submit poll resume complete
stale_completion r path path' mode mode' success = (refl, refl, refl, refl)
