-- ===== src/Transport/Pipes/Stalls.antt =====
-- src/mcp_transport.c: a bounded write to a pipe that stops short aborts the connection.
use displayxr_mcp.Prelude.{
  ℕ, suc, ◌≡◌, refl, sym, ap, ◌∙◌, subst, Bool, true, false, ◌||◌, Option, none, some, List, [],
  ◌∷◌, ◌++◌, take, drop, append_assoc, take-append-drop, leb, if◌then◌else◌, Bytes,
}
use displayxr_mcp.Transport.{taken, untaken, Bounded, gives_up, behind}
use displayxr_mcp.Transport.Pipes.{writes, runs_out, fails, Round, pipe_write_bounded}

-- A bounded write that is over: all bytes got through and the connection is kept, or a part from the
-- front did, the write failed, and the connection was aborted. A write that was cancelled may have
-- got all bytes through.
pub data Settled (s : Bytes) : Option Bounded → Type 0 where
  waits : Settled s none
  delivered : Settled s (some (record { written = s; ok = true; aborted = false }))
  cut :
      (front rest : Bytes)
      → s ≡ front ++ rest
      → Settled s (some (record { written = front; ok = false; aborted = true }))

Settled-behind :
    (c s : Bytes) (out : Option Bounded) → Settled s out → Settled (c ++ s) (behind c out)
Settled-behind c s _ waits = waits
Settled-behind c s _ delivered = delivered
Settled-behind c s _ (cut front rest e) =
    cut (c ++ front) rest (ap (◌++◌ c) e ∙ sym (append_assoc c front rest))

if-Settled :
    (s : Bytes) (b : Bool) (x : Option Bounded)
    → Settled s x
    → Settled s (if b then some gives_up else x)
if-Settled s true x h = cut [] s refl
if-Settled s false x h = h

-- A bounded write to a pipe that returns has written all bytes and kept the connection, or it has
-- failed and the connection is aborted, whatever the clock and the calls do, and with the bytes that a
-- cancelled call still wrote counted.
pub pipe_write_bounded-Settled :
    (timeout : ℕ) (rs : List Round) (s : Bytes) → Settled s (pipe_write_bounded timeout rs s)
unfolding pipe_write_bounded
pipe_write_bounded-Settled timeout rs [] = delivered
pipe_write_bounded-Settled timeout [] (c ∷ cs) = waits
pipe_write_bounded-Settled timeout ((aborted, elapsed, fails) ∷ rs) (c ∷ cs) =
    if-Settled (c ∷ cs) (aborted || leb timeout elapsed) _ (cut [] (c ∷ cs) refl)
pipe_write_bounded-Settled timeout ((aborted, elapsed, runs_out n) ∷ rs) (c ∷ cs) =
    if-Settled (c ∷ cs) (aborted || leb timeout elapsed) _
      (cut (take n (c ∷ cs)) (drop n (c ∷ cs)) (sym (take-append-drop n (c ∷ cs))))
pipe_write_bounded-Settled timeout ((aborted, elapsed, writes n) ∷ rs) (c ∷ cs) =
    if-Settled (c ∷ cs) (aborted || leb timeout elapsed) _ (
      subst
        (λ t.
          Settled t
            (behind (taken n (c ∷ cs)) (pipe_write_bounded timeout rs (untaken n (c ∷ cs)))))
        (take-append-drop (suc n) (c ∷ cs))
        (Settled-behind (taken n (c ∷ cs)) (untaken n (c ∷ cs)) _
          (pipe_write_bounded-Settled timeout rs (untaken n (c ∷ cs)))))
