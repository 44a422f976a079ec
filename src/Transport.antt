-- ===== src/Transport.antt =====
-- src/mcp_transport.c, the POSIX part: the names of the sockets and the sessions that they stand
-- for, and the loops that read and write on a connection. What a system call returns is an argument:
-- a list of the outcomes to come.
pub mod Names
pub mod Reading
pub mod Writing
pub mod Sockets
pub mod Pipes
mod Tests
use displayxr_mcp.Prelude.{
  ℕ, zero, suc, ◌+◌, ◌-◌, ◌^◌, ◌≤◌, min, Bool, true, false, not, ◌&&◌, ◌||◌, Option, none, some,
  List, [], ◌∷◌, ◌++◌, length, take, drop, ltb, leb, ◌==◌, if◌then◌else◌, Bytes, ascii, str_eq,
}
use displayxr_mcp.Libc.{numeral, decimal}

-- What `snprintf` leaves in a buffer of `cap` bytes.
abbrev pub clip : ℕ → Bytes → Bytes
clip cap s = take (cap - 1) s

-- SOCK_PREFIX without its directory, and SOCK_SUFFIX.
abbrev pub name_prefix : Bytes
name_prefix = ascii "displayxr-mcp-"

abbrev pub name_suffix : Bytes
name_suffix = ascii ".sock"

-- `build_sock_path_named` and `build_sock_path`, into `char path[128]`.
abbrev pub sock_path_named : Bytes → Bytes
sock_path_named role = clip 128 (ascii "/tmp/" ++ (name_prefix ++ (role ++ name_suffix)))

abbrev pub sock_path : ℕ → Bytes
sock_path pid = sock_path_named (decimal pid)

-- The address of `bind` and `connect`: `sun_path` has 108 bytes.
abbrev pub sun_path : Bytes → Bytes
sun_path path = clip 108 path

-- LONG_MAX on POSIX, and `strtol (s, NULL, 10)` where it is above 0, clamped to a LONG_MAX.
abbrev pub long_max : ℕ
long_max = 2 ^ 63 - 1

pub positive_long : ℕ → Bytes → Option ℕ
positive_long most s = elim (numeral s) [
  | none ↦ none
  | some n ↦ if n.negative || n.magnitude == 0 then none else some (min n.magnitude most)
]

-- The session that a file in /tmp stands for: the body of the loop of `mcp_enumerate_sessions`.
pub session_pid : Bytes → Option ℕ
session_pid name =
    let number = positive_long long_max (drop (length name_prefix) name) in
    if leb (length name) (length name_prefix + length name_suffix)
    then none
    else (if not (str_eq (take (length name_prefix) name) name_prefix)
        then none
        else (if not (str_eq (drop (length name - length name_suffix) name) name_suffix)
            then none
            else number))

-- `mcp_enumerate_sessions`, on the names that `readdir` finds, with room for `cap` of them.
pub enumerate_sessions : ℕ → List Bytes → List ℕ
enumerate_sessions cap [] = []
enumerate_sessions zero (name ∷ names) = []
enumerate_sessions (suc cap) (name ∷ names) = elim (session_pid name) [
  | none ↦ enumerate_sessions (suc cap) names
  | some pid ↦ pid ∷ enumerate_sessions cap names
]

-- The outcomes of `read`: bytes have arrived, a signal, the end, or an error.
pub data ReadOutcome : Type 0 where
  arrives : Bytes → ReadOutcome
  read_interrupted closed read_failed : ReadOutcome

-- `mcp_conn_read`: all `n` bytes, or failure, with the outcomes left. A `read` takes at most what the
-- loop has still room for; no bytes are the end.
pub conn_read : ℕ → List ReadOutcome → Option Bytes × List ReadOutcome
conn_read zero os = (some [], os)
conn_read (suc n) [] = (none, [])
conn_read (suc n) (read_interrupted ∷ os) = conn_read (suc n) os
conn_read (suc n) (closed ∷ os) = (none, os)
conn_read (suc n) (read_failed ∷ os) = (none, os)
conn_read (suc n) (arrives [] ∷ os) = (none, os)
conn_read (suc n) (arrives (b ∷ bs) ∷ os) =
    let (rest, left) = conn_read (suc n - length (b ∷ bs)) os in
    if ltb (suc n) (length (b ∷ bs))
    then (some (take (suc n) (b ∷ bs)), arrives (drop (suc n) (b ∷ bs)) ∷ os)
    else (elim rest [ none ↦ none | some cs ↦ some ((b ∷ bs) ++ cs) ], left)

-- The outcomes of `send`: one more than `n` bytes are taken, a signal, or an error.
pub data SendOutcome : Type 0 where
  takes : ℕ → SendOutcome
  send_interrupted send_failed : SendOutcome

-- What a `send` takes off the bytes, and what is left.
abbrev pub taken : ℕ → Bytes → Bytes
taken n s = take (suc n) s

abbrev pub untaken : ℕ → Bytes → Bytes
untaken n s = drop (suc n) s

-- The loop of `mcp_conn_write`: what got through, and whether that was all.
pub conn_write : List SendOutcome → Bytes → Bytes × Bool
conn_write os [] = ([], true)
conn_write [] (c ∷ cs) = ([], false)
conn_write (send_interrupted ∷ os) (c ∷ cs) = conn_write os (c ∷ cs)
conn_write (send_failed ∷ os) (c ∷ cs) = ([], false)
conn_write (takes n ∷ os) (c ∷ cs) =
    let (rest, ok) = conn_write os (untaken n (c ∷ cs)) in (taken n (c ∷ cs) ++ rest, ok)

-- One round of `mcp_conn_write_bounded`: the time that has gone by, in ms, and what `poll` says, with
-- what the `send` behind it does.
pub data PollOutcome : Type 0 where
  timed_out poll_interrupted poll_failed : PollOutcome
  writable : SendOutcome → PollOutcome

-- What is left of a bounded write: the bytes that got through, the result, and whether the
-- connection was aborted.
pub record Bounded : Type 0 where
  pub written : Bytes
  pub ok : Bool
  pub aborted : Bool

abbrev pub gives_up : Bounded
gives_up = record { written = []; ok = false; aborted = true }

-- The bytes of a round in front of those of the rounds behind it.
abbrev pub behind : Bytes → Option Bounded → Option Bounded
behind s none = none
behind s (some out) = some (record out { written = s ++ out.written })

-- The loop of `mcp_conn_write_bounded`, on the rounds to come; a write that has no more rounds is one
-- that still waits, which is `none`.
pub write_bounded : ℕ → List (ℕ × PollOutcome) → Bytes → Option Bounded
write_bounded timeout rs [] = some (record { written = []; ok = true; aborted = false })
write_bounded timeout [] (c ∷ cs) = none
write_bounded timeout ((elapsed, polled) ∷ rs) (c ∷ cs) =
    let again = write_bounded timeout rs (c ∷ cs) in
    if leb timeout elapsed then some gives_up else (elim polled [
      | timed_out ↦ some gives_up
      | poll_interrupted ↦ again
      | poll_failed ↦ some gives_up
      | writable sent ↦ elim sent [
        | takes n ↦ behind (taken n (c ∷ cs)) (write_bounded timeout rs (untaken n (c ∷ cs)))
        | send_interrupted ↦ again
        | send_failed ↦ some gives_up
      ]
    ])
