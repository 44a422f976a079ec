-- ===== src/Transport/Pipes.antt =====
-- src/mcp_transport.c, the part for Windows: the names of the pipes, the sessions that they stand
-- for, and the loops that read and write on a pipe. A round is whether the connection was aborted
-- before it, and what the call behind that check comes to.
pub mod Agree
pub mod Stalls
use displayxr_mcp.Prelude.{
  ℕ, zero, suc, ◌+◌, ◌-◌, ◌^◌, Bool, true, false, not, ◌||◌, Option, none, some, List, [], ◌∷◌,
  ◌++◌, length, take, drop, ltb, leb, ◌==◌, if◌then◌else◌, Bytes, ascii, str_eq,
}
use displayxr_mcp.Libc.{decimal}
use displayxr_mcp.Transport.{
  clip, name_prefix, positive_long, taken, untaken, Bounded, gives_up, behind,
}

-- `build_pipe_name_named` and `build_pipe_name`, into `char name[128]`.
abbrev pub pipe_name_named : Bytes → Bytes
pipe_name_named role = clip 128 (ascii "\\\\.\\pipe\\" ++ (name_prefix ++ role))

abbrev pub pipe_name : ℕ → Bytes
pipe_name pid = pipe_name_named (decimal pid)

-- `strstr`: what follows the first occurrence of the key.
pub behind_key : Bytes → Bytes → Option Bytes
behind_key key [] = if str_eq key [] then some [] else none
behind_key key (c ∷ cs) =
    let later = behind_key key cs in
    if str_eq (take (length key) (c ∷ cs)) key then some (drop (length key) (c ∷ cs)) else later

-- LONG_MAX on Windows.
abbrev pub pipe_long_max : ℕ
pipe_long_max = 2 ^ 31 - 1

-- The session that a pipe stands for: the body of the loop of `mcp_enumerate_sessions`.
pub pipe_pid : Bytes → Option ℕ
pipe_pid name = elim (behind_key name_prefix name) [
  | none ↦ none
  | some s ↦ positive_long pipe_long_max s
]

-- The loop: the names beyond the room are looked at and left out.
pub enumerate_pipes : ℕ → List Bytes → List ℕ
enumerate_pipes cap [] = []
enumerate_pipes cap (name ∷ names) = elim (pipe_pid name) [
  | none ↦ enumerate_pipes cap names
  | some pid ↦ elim cap [
    | zero ↦ enumerate_pipes zero names
    | suc room ↦ pid ∷ enumerate_pipes room names
  ]
]

-- The outcome of `ReadFile`, waited for: the bytes got, or failure.
abbrev pub PipeRead : Type 0
PipeRead = Bool × Option Bytes

-- `mcp_conn_read`
pub pipe_read : ℕ → List PipeRead → Option Bytes × List PipeRead
pipe_read zero rs = (some [], rs)
pipe_read (suc n) [] = (none, [])
pipe_read (suc n) ((true, o) ∷ rs) = (none, rs)
pipe_read (suc n) ((false, none) ∷ rs) = (none, rs)
pipe_read (suc n) ((false, some []) ∷ rs) = (none, rs)
pipe_read (suc n) ((false, some (b ∷ bs)) ∷ rs) =
    let (rest, left) = pipe_read (suc n - length (b ∷ bs)) rs in
    if ltb (suc n) (length (b ∷ bs))
    then (some (take (suc n) (b ∷ bs)), (false, some (drop (suc n) (b ∷ bs))) ∷ rs)
    else (elim rest [ none ↦ none | some cs ↦ some ((b ∷ bs) ++ cs) ], left)

-- The outcome of `WriteFile`, waited for: one more than `n` bytes are written, or failure or none.
abbrev pub PipeWrite : Type 0
PipeWrite = Bool × Option ℕ

-- `mcp_conn_write`: what got through, and whether that was all.
pub pipe_write : List PipeWrite → Bytes → Bytes × Bool
pipe_write rs [] = ([], true)
pipe_write [] (c ∷ cs) = ([], false)
pipe_write ((true, o) ∷ rs) (c ∷ cs) = ([], false)
pipe_write ((false, none) ∷ rs) (c ∷ cs) = ([], false)
pipe_write ((false, some n) ∷ rs) (c ∷ cs) =
    let (rest, ok) = pipe_write rs (untaken n (c ∷ cs)) in (taken n (c ∷ cs) ++ rest, ok)

-- The outcome of the `WriteFile` of a bounded write, waited for until the time is over: one more than
-- `n` bytes are written, failure or none, or the time is over, when the call is cancelled and has
-- written `n` bytes.
pub data BoundedWrite : Type 0 where
  writes runs_out : ℕ → BoundedWrite
  fails : BoundedWrite

-- A round of it: whether the connection was aborted before, the time that has gone by, in ms, and the
-- outcome.
abbrev pub Round : Type 0
Round = Bool × ℕ × BoundedWrite

-- The loop of `mcp_conn_write_bounded`, on the rounds to come; `none` is a write that still waits. A
-- connection that was aborted before counts as aborted.
pub pipe_write_bounded : ℕ → List Round → Bytes → Option Bounded
pipe_write_bounded timeout rs [] = some (record { written = []; ok = true; aborted = false })
pipe_write_bounded timeout [] (c ∷ cs) = none
pipe_write_bounded timeout ((aborted, elapsed, outcome) ∷ rs) (c ∷ cs) =
    if aborted || leb timeout elapsed then some gives_up else (elim outcome [
      | writes n ↦ behind (taken n (c ∷ cs)) (pipe_write_bounded timeout rs (untaken n (c ∷ cs)))
      | runs_out n ↦ some (record gives_up { written = take n (c ∷ cs) })
      | fails ↦ some gives_up
    ])
