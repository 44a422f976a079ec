-- ===== src/Capture/Tests.antt =====
-- src/mcp_capture.c: a capture that is taken, completed and returned.
use displayxr_mcp.Prelude.{◌≡◌, true, false, none, some, List, [], ◌∷◌, ascii}
use displayxr_mcp.Capture.{init, submit, resume, poll, complete, fit_path}
use displayxr_mcp.Capture.Handoff.{
  Event, polls, wakes, expires, completes, wait, verdict, is_some, wait_lem, stale_completion,
}

abbrev taken_and_done : List Event
taken_and_done = wakes ∷ polls ∷ completes true ∷ wakes ∷ expires ∷ []

wait_lem_example :
    (poll (submit init (ascii "a.png") 1) ≡ some (fit_path (ascii "a.png"), 1))
    × ((wait (submit init (ascii "a.png") 1) taken_and_done).1 ≡ verdict none taken_and_done)
    × (is_some (wait (submit init (ascii "a.png") 1) taken_and_done).1 ≡ true
        → poll (wait (submit init (ascii "a.png") 1) taken_and_done).0 ≡ none)
wait_lem_example = wait_lem init (ascii "a.png") 1 taken_and_done

stale_completion_example :
    let taken = submit init (ascii "a.png") 0 in
    let next = submit (resume taken true).0 (ascii "b.png") 0 in
    let late = complete next true in
    (poll taken ≡ some (fit_path (ascii "a.png"), 0))
    × ((resume taken true).1 ≡ some false)
    × ((resume late false).1 ≡ some true)
    × (poll late ≡ none)
stale_completion_example = stale_completion init (ascii "a.png") (ascii "b.png") 0 0 true
