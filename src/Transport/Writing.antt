-- ===== src/Transport/Writing.antt =====
-- src/mcp_transport.c: `mcp_conn_write` and `mcp_conn_write_bounded` write the bytes or a part of them
-- from the front, and a bounded write that stops short aborts the connection.
use displayxr_mcp.Prelude.{
  ℕ, suc, ◌<◌, ◌≡◌, refl, sym, ap, ◌∙◌, subst, Bool, true, false, Option, none, some, List, [], ◌∷◌,
  ◌++◌, length, append_assoc, take-append-drop, leb, if◌then◌else◌, Bytes, arith,
}
use displayxr_mcp.Transport.{
  SendOutcome, takes, send_interrupted, send_failed, taken, untaken, conn_write, PollOutcome,
  timed_out, poll_interrupted, poll_failed, writable, Bounded, gives_up, behind, write_bounded,
}

-- What got through: all of it, or a part from the front where the write fails.
pub data Sends (s : Bytes) : Bytes × Bool → Type 0 where
  all : Sends s (s, true)
  part : (front rest : Bytes) → s ≡ front ++ rest → 0 < length rest → Sends s (front, false)

Sends-behind : (c s : Bytes) (out : Bytes × Bool) → Sends s out → Sends (c ++ s) (c ++ out.0, out.1)
Sends-behind c s _ all = all
Sends-behind c s _ (part front rest e l) =
    part (c ++ front) rest (ap (◌++◌ c) e ∙ sym (append_assoc c front rest)) l

-- A write succeeds exactly when all bytes got through, in order; if it fails, what got through is a
-- part from the front that is not all. Signals and the division into system calls make no difference.
pub conn_write_lem : (os : List SendOutcome) (s : Bytes) → Sends s (conn_write os s)
unfolding conn_write
conn_write_lem os [] = all
conn_write_lem [] (c ∷ cs) = part [] (c ∷ cs) refl (omega arith)
conn_write_lem (send_interrupted ∷ os) (c ∷ cs) = conn_write_lem os (c ∷ cs)
conn_write_lem (send_failed ∷ os) (c ∷ cs) = part [] (c ∷ cs) refl (omega arith)
conn_write_lem (takes n ∷ os) (c ∷ cs) =
    subst
      (λ t. Sends t (
        taken n (c ∷ cs) ++ (conn_write os (untaken n (c ∷ cs))).0,
        (conn_write os (untaken n (c ∷ cs))).1,
      ))
      (take-append-drop (suc n) (c ∷ cs))
      (Sends-behind (taken n (c ∷ cs)) (untaken n (c ∷ cs)) (conn_write os (untaken n (c ∷ cs)))
        (conn_write_lem os (untaken n (c ∷ cs))))

-- A bounded write that is over: all bytes got through and the connection is kept, or a part from the
-- front did, the write failed, and the connection was aborted.
pub data Settled (s : Bytes) : Option Bounded → Type 0 where
  waits : Settled s none
  delivered : Settled s (some (record { written = s; ok = true; aborted = false }))
  cut :
      (front rest : Bytes)
      → s ≡ front ++ rest
      → 0 < length rest
      → Settled s (some (record { written = front; ok = false; aborted = true }))

Settled-behind :
    (c s : Bytes) (out : Option Bounded) → Settled s out → Settled (c ++ s) (behind c out)
Settled-behind c s _ waits = waits
Settled-behind c s _ delivered = delivered
Settled-behind c s _ (cut front rest e l) =
    cut (c ++ front) rest (ap (◌++◌ c) e ∙ sym (append_assoc c front rest)) l

gives_up-Settled : (c : ℕ) (cs : Bytes) → Settled (c ∷ cs) (some gives_up)
gives_up-Settled c cs = cut [] (c ∷ cs) refl (omega arith)

if-Settled :
    (s : Bytes) (b : Bool) (x y : Option Bounded)
    → Settled s x
    → Settled s y
    → Settled s (if b then x else y)
if-Settled s true x y h k = h
if-Settled s false x y h k = k

-- A bounded write that returns has written all bytes and kept the connection, or it has failed with
-- not all of them written and aborted the connection: no frame is left half written on a connection
-- that is still used, whatever the clock, `poll` and `send` do.
pub write_bounded-Settled :
    (timeout : ℕ) (rs : List (ℕ × PollOutcome)) (s : Bytes) → Settled s (write_bounded timeout rs s)
unfolding write_bounded
write_bounded-Settled timeout rs [] = delivered
write_bounded-Settled timeout [] (c ∷ cs) = waits
write_bounded-Settled timeout ((elapsed, timed_out) ∷ rs) (c ∷ cs) =
    if-Settled (c ∷ cs) (leb timeout elapsed) _ _ (gives_up-Settled c cs) (gives_up-Settled c cs)
write_bounded-Settled timeout ((elapsed, poll_failed) ∷ rs) (c ∷ cs) =
    if-Settled (c ∷ cs) (leb timeout elapsed) _ _ (gives_up-Settled c cs) (gives_up-Settled c cs)
write_bounded-Settled timeout ((elapsed, poll_interrupted) ∷ rs) (c ∷ cs) =
    if-Settled (c ∷ cs) (leb timeout elapsed) _ _ (gives_up-Settled c cs)
      (write_bounded-Settled timeout rs (c ∷ cs))
write_bounded-Settled timeout ((elapsed, writable send_interrupted) ∷ rs) (c ∷ cs) =
    if-Settled (c ∷ cs) (leb timeout elapsed) _ _ (gives_up-Settled c cs)
      (write_bounded-Settled timeout rs (c ∷ cs))
write_bounded-Settled timeout ((elapsed, writable send_failed) ∷ rs) (c ∷ cs) =
    if-Settled (c ∷ cs) (leb timeout elapsed) _ _ (gives_up-Settled c cs) (gives_up-Settled c cs)
write_bounded-Settled timeout ((elapsed, writable (takes n)) ∷ rs) (c ∷ cs) =
    if-Settled (c ∷ cs) (leb timeout elapsed) _ _ (gives_up-Settled c cs) (
      subst
        (λ t. Settled t (behind (taken n (c ∷ cs)) (write_bounded timeout rs (untaken n (c ∷ cs)))))
        (take-append-drop (suc n) (c ∷ cs))
        (Settled-behind (taken n (c ∷ cs)) (untaken n (c ∷ cs)) _
          (write_bounded-Settled timeout rs (untaken n (c ∷ cs)))))
