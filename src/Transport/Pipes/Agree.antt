-- ===== src/Transport/Pipes/Agree.antt =====
-- src/mcp_transport.c: what the two transports promise is the same.
use displayxr_mcp.Prelude.{
  ℕ, zero, suc, ◌-◌, ◌<◌, ◌^◌, ◌≡◌, refl, sym, ap, ◌∙◌, true, false, none, some, inl, inr, List, [],
  ◌∷◌, ◌++◌, length, take, str_eq_refl, map, ltb, Bytes, arith, Bool-cases,
}
use displayxr_mcp.Libc.{decimal, numeral, skip_spaces, signed_numeral, unsigned_numeral}
use displayxr_mcp.Transport.{
  ReadOutcome, arrives, read_failed, SendOutcome, takes, send_failed, conn_read, conn_write,
  enumerate_sessions, taken, untaken, name_prefix, positive_long,
}
use displayxr_mcp.Transport.Names.{
  positive_long-pid, Letter, Endpoint, process, role, AllProper, processes, socket_files,
  enumerate_sessions-endpoints,
}
use displayxr_mcp.Transport.Pipes.{
  pipe_long_max, PipeRead, PipeWrite, pipe_read, pipe_write, behind_key, pipe_pid, enumerate_pipes,
}

-- A round as the outcome of a POSIX call: an aborted connection is one whose calls fail.
abbrev pub read_outcome : PipeRead → ReadOutcome
read_outcome (true, o) = read_failed
read_outcome (false, none) = read_failed
read_outcome (false, some s) = arrives s

abbrev pub send_outcome : PipeWrite → SendOutcome
send_outcome (true, o) = send_failed
send_outcome (false, none) = send_failed
send_outcome (false, some n) = takes n

-- A read from a pipe is a read from a socket on the same bytes, with the same rounds left, where an
-- aborted connection counts as one whose call fails.
pub pipe_read-conn_read :
    (n : ℕ) (rs : List PipeRead)
    → ((pipe_read n rs).0, map read_outcome (pipe_read n rs).1) ≡ conn_read n (map read_outcome rs)
unfolding pipe_read conn_read
pipe_read-conn_read zero rs = refl
pipe_read-conn_read (suc n) [] = refl
pipe_read-conn_read (suc n) ((true, o) ∷ rs) = refl
pipe_read-conn_read (suc n) ((false, none) ∷ rs) = refl
pipe_read-conn_read (suc n) ((false, some []) ∷ rs) = refl
pipe_read-conn_read (suc n) ((false, some (b ∷ bs)) ∷ rs) =
    elim (Bool-cases (ltb (suc n) (length (b ∷ bs)))) [
      | inl more ↦ simp more refl
      | inr all ↦ simp all (
          ap (λ t. (elim t.0 [ none ↦ none | some cs ↦ some ((b ∷ bs) ++ cs) ], t.1))
            (pipe_read-conn_read (suc n - length (b ∷ bs)) rs))
    ]

-- A write to a pipe lets through what a write to a socket does.
pub pipe_write-conn_write :
    (rs : List PipeWrite) (s : Bytes) → pipe_write rs s ≡ conn_write (map send_outcome rs) s
unfolding pipe_write conn_write
pipe_write-conn_write rs [] = refl
pipe_write-conn_write [] (c ∷ cs) = refl
pipe_write-conn_write ((true, o) ∷ rs) (c ∷ cs) = refl
pipe_write-conn_write ((false, none) ∷ rs) (c ∷ cs) = refl
pipe_write-conn_write ((false, some n) ∷ rs) (c ∷ cs) =
    ap (λ t. (taken n (c ∷ cs) ++ t.0, t.1)) (pipe_write-conn_write rs (untaken n (c ∷ cs)))

behind_key-prefix : (s : Bytes) → behind_key name_prefix (name_prefix ++ s) ≡ some s
unfolding behind_key
behind_key-prefix s = rw (str_eq_refl name_prefix) refl

-- The name of an endpoint's pipe.
abbrev pub pipe_file : Endpoint → Bytes
pipe_file (process pid) = name_prefix ++ decimal pid
pipe_file (role name) = name_prefix ++ name

abbrev pub pipe_files : List Endpoint → List Bytes
pipe_files [] = []
pipe_files (e ∷ es) = pipe_file e ∷ pipe_files es

positive_long-role : (most : ℕ) (s : Bytes) → Letter s → positive_long most s ≡ none
unfolding positive_long numeral skip_spaces signed_numeral unsigned_numeral
positive_long-role most [] h = absurd h
positive_long-role most (c ∷ cs) h = ground (arith, h.0, h.1, h.2, h.3)

pipe_pid-prefix : (s : Bytes) → pipe_pid (name_prefix ++ s) ≡ positive_long pipe_long_max s
unfolding pipe_pid
pipe_pid-prefix s = rw (behind_key-prefix s, pipe_pid) refl

enumerate_pipes-none :
    (cap : ℕ) (name : Bytes) (names : List Bytes)
    → pipe_pid name ≡ none
    → enumerate_pipes cap (name ∷ names) ≡ enumerate_pipes cap names
unfolding enumerate_pipes
enumerate_pipes-none cap name names e = rw (e, enumerate_pipes)

enumerate_pipes-full :
    (pid : ℕ) (name : Bytes) (names : List Bytes)
    → pipe_pid name ≡ some pid
    → enumerate_pipes zero (name ∷ names) ≡ enumerate_pipes zero names
unfolding enumerate_pipes
enumerate_pipes-full pid name names e = rw (e, enumerate_pipes)

enumerate_pipes-room :
    (cap pid : ℕ) (name : Bytes) (names : List Bytes)
    → pipe_pid name ≡ some pid
    → enumerate_pipes (suc cap) (name ∷ names) ≡ pid ∷ enumerate_pipes cap names
unfolding enumerate_pipes
enumerate_pipes-room cap pid name names e = rw (e, enumerate_pipes)

-- Process ids that fit a `long` of 32 bits.
abbrev pub AllBelow : List ℕ → Type 0
AllBelow [] = Unit {0}
AllBelow (pid ∷ pids) = (pid < 2 ^ 31) × AllBelow pids

enumerate_pipes-endpoints :
    (cap : ℕ) (es : List Endpoint)
    → AllProper es
    → AllBelow (processes es)
    → enumerate_pipes cap (pipe_files es) ≡ take cap (processes es)
unfolding enumerate_pipes
enumerate_pipes-endpoints zero [] h l = refl
enumerate_pipes-endpoints (suc cap) [] h l = refl
enumerate_pipes-endpoints cap (role name ∷ es) h l =
    enumerate_pipes-none cap (name_prefix ++ name) (pipe_files es)
      (pipe_pid-prefix name ∙ positive_long-role pipe_long_max name h.0)
    ∙ enumerate_pipes-endpoints cap es h.1 l
enumerate_pipes-endpoints zero (process pid ∷ es) h l =
    enumerate_pipes-full pid (name_prefix ++ decimal pid) (pipe_files es) (
      pipe_pid-prefix (decimal pid)
      ∙ positive_long-pid pipe_long_max pid h.0.0 (omega (arith, l.0)))
    ∙ enumerate_pipes-endpoints zero es h.1 l.1
enumerate_pipes-endpoints (suc cap) (process pid ∷ es) h l =
    enumerate_pipes-room cap pid (name_prefix ++ decimal pid) (pipe_files es) (
      pipe_pid-prefix (decimal pid)
      ∙ positive_long-pid pipe_long_max pid h.0.0 (omega (arith, l.0)))
    ∙ ap (◌∷◌ pid) (enumerate_pipes-endpoints cap es h.1 l.1)

-- On both transports the same sessions are found: among the pipes and among the sockets of the same
-- endpoints, the enumeration finds the same processes, those that there are and up to the room that
-- it has. Each process id is above 0 and below 2 ^ 31, and no role begins like a number.
pub enumerate_pipes-enumerate_sessions :
    (cap : ℕ) (es : List Endpoint)
    → AllProper es
    → AllBelow (processes es)
    → (enumerate_pipes cap (pipe_files es) ≡ take cap (processes es))
      × (enumerate_pipes cap (pipe_files es) ≡ enumerate_sessions cap (socket_files es))
enumerate_pipes-enumerate_sessions cap es h l = (
  enumerate_pipes-endpoints cap es h l,
  enumerate_pipes-endpoints cap es h l ∙ sym (enumerate_sessions-endpoints cap es h),
)
