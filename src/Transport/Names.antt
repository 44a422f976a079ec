-- ===== src/Transport/Names.antt =====
-- src/mcp_transport.c: the sockets of the servers are the sessions that are found.
use displayxr_mcp.Prelude.{
  ℕ, zero, suc, ◌+◌, ◌-◌, ◌^◌, ◌≤◌, ◌<◌, ◌≡◌, ◌≢◌, refl, sym, ap, ◌∙◌, false, none, some, List, [],
  ◌∷◌, ◌++◌, length, length_pos, length-append, take, drop, take_all, drop-append_length,
  append_assoc, append-nil, leb, ◌==◌, Bytes, ascii, str_eq_refl, arith,
}
use displayxr_mcp.Libc.{
  numeral, decimal, is_digit, is_space, skip_spaces, signed_numeral, unsigned_numeral,
}
use displayxr_mcp.Libc.Decimal.{numeral-decimal, length-decimal, decimal-ne-nil}
use displayxr_mcp.Transport.{
  clip, name_prefix, name_suffix, sock_path, sun_path, long_max, positive_long, session_pid,
  enumerate_sessions,
}

-- The name in /tmp of a session's or a role's socket.
abbrev pub file_name : Bytes → Bytes
file_name s = name_prefix ++ (s ++ name_suffix)

positive_long-decimal :
    (n : ℕ) → 0 < n → n < 2 ^ 63 → positive_long long_max (decimal n ++ name_suffix) ≡ some n
unfolding positive_long
positive_long-decimal n lo hi =
    rw (numeral-decimal n name_suffix refl, positive_long) (ground arith)

pub positive_long-pid : (most n : ℕ) → 0 < n → n ≤ most → positive_long most (decimal n) ≡ some n
unfolding positive_long
positive_long-pid most n lo hi =
    rw (ap numeral (sym (append-nil (decimal n))) ∙ numeral-decimal n [] tt, positive_long)
      (ground arith)

drop-file_name : (s : Bytes) → drop (length name_prefix) (file_name s) ≡ s ++ name_suffix
drop-file_name s = drop-append_length name_prefix (s ++ name_suffix)

suffix-file_name :
    (s : Bytes) → drop (length (file_name s) - length name_suffix) (file_name s) ≡ name_suffix
suffix-file_name s =
    let front = name_prefix ++ s in
    let split : file_name s ≡ front ++ name_suffix = sym (append_assoc name_prefix s name_suffix) in
    let size : length (file_name s) - length name_suffix ≡ length front =
      omega (arith, ap length split, length-append front name_suffix) in
    ap (λ n. drop n (file_name s)) size
    ∙ ap (drop (length front)) split
    ∙ drop-append_length front name_suffix

session_pid-file_name :
    (s : Bytes) → s ≢ [] → session_pid (file_name s) ≡ positive_long long_max (s ++ name_suffix)
unfolding session_pid
session_pid-file_name s h =
    let long : leb (length (file_name s)) (length name_prefix + length name_suffix) ≡ false =
      ground (arith, length-append s name_suffix, length_pos s h) in
    rw (long, session_pid, suffix-file_name s, str_eq_refl name_prefix, str_eq_refl name_suffix)

-- The file of a session's socket is found as that session: the name that `mcp_listener_open` gives to
-- it is read back by the enumeration. The process id is above 0 and fits a `long`.
pub session_pid-sock_path :
    (pid : ℕ)
    → 0 < pid
    → pid < 2 ^ 63
    → ((sun_path (sock_path pid)) ≡ ascii "/tmp/" ++ file_name (decimal pid))
      × (session_pid (file_name (decimal pid)) ≡ some pid)
session_pid-sock_path pid lo hi =
    let size = length-decimal 18 pid (omega arith) in
    let whole = ascii "/tmp/" ++ file_name (decimal pid) in
    let short : length whole ≤ 107 = omega (arith, length-append (decimal pid) name_suffix) in
    (
      ap (clip 108) (take_all 127 whole (omega arith)) ∙ take_all 107 whole short,
      session_pid-file_name (decimal pid) (decimal-ne-nil pid) ∙ positive_long-decimal pid lo hi,
    )

-- What `strtol` makes of a role that does not begin with a number.
abbrev pub Letter : Bytes → Type 0
Letter [] = ⊥
Letter (c ∷ cs) =
    (is_digit c ≡ false) × (is_space c ≡ false) × ((c == b'-') ≡ false) × ((c == b'+') ≡ false)

positive_long-Letter : (s : Bytes) → Letter s → positive_long long_max (s ++ name_suffix) ≡ none
unfolding positive_long numeral skip_spaces signed_numeral unsigned_numeral
positive_long-Letter [] h = absurd h
positive_long-Letter (c ∷ cs) h = ground (arith, h.0, h.1, h.2, h.3)

session_pid-role : (role : Bytes) → Letter role → session_pid (file_name role) ≡ none
session_pid-role [] h = absurd h
session_pid-role (c ∷ cs) h =
    session_pid-file_name (c ∷ cs) (λ e. cc) ∙ positive_long-Letter (c ∷ cs) h

-- What listens: the server of a process, or one with a role.
pub data Endpoint : Type 0 where
  process : ℕ → Endpoint
  role : Bytes → Endpoint

-- The file of its socket.
abbrev pub socket_file : Endpoint → Bytes
socket_file (process pid) = file_name (decimal pid)
socket_file (role name) = file_name name

-- A process id above 0 that fits a `long`, or a role that begins neither with a digit or a sign nor
-- with white space.
abbrev pub IsProper : Endpoint → Type 0
IsProper (process pid) = (0 < pid) × (pid < 2 ^ 63)
IsProper (role name) = Letter name

abbrev pub AllProper : List Endpoint → Type 0
AllProper [] = Unit {0}
AllProper (e ∷ es) = IsProper e × AllProper es

-- The processes among them.
abbrev pub processes : List Endpoint → List ℕ
processes [] = []
processes (process pid ∷ es) = pid ∷ processes es
processes (role name ∷ es) = processes es

abbrev pub socket_files : List Endpoint → List Bytes
socket_files [] = []
socket_files (e ∷ es) = socket_file e ∷ socket_files es

enumerate_sessions-none :
    (cap : ℕ) (name : Bytes) (names : List Bytes)
    → session_pid name ≡ none
    → enumerate_sessions (suc cap) (name ∷ names) ≡ enumerate_sessions (suc cap) names
unfolding enumerate_sessions
enumerate_sessions-none cap name names e = rw (e, enumerate_sessions)

enumerate_sessions-some :
    (cap pid : ℕ) (name : Bytes) (names : List Bytes)
    → session_pid name ≡ some pid
    → enumerate_sessions (suc cap) (name ∷ names) ≡ pid ∷ enumerate_sessions cap names
unfolding enumerate_sessions
enumerate_sessions-some cap pid name names e = rw (e, enumerate_sessions)

-- Among the sockets of servers, the enumeration finds exactly the processes, in the order in which
-- the directory lists them and up to the room that it has; servers with a role are left out. Each
-- process id is above 0 and fits a `long`, and no role begins like a number.
pub enumerate_sessions-endpoints :
    (cap : ℕ) (es : List Endpoint)
    → AllProper es
    → enumerate_sessions cap (socket_files es) ≡ take cap (processes es)
unfolding enumerate_sessions
enumerate_sessions-endpoints zero [] h = refl
enumerate_sessions-endpoints (suc cap) [] h = refl
enumerate_sessions-endpoints zero (e ∷ es) h = refl
enumerate_sessions-endpoints (suc cap) (process pid ∷ es) h =
    enumerate_sessions-some cap pid (file_name (decimal pid)) (socket_files es)
      (session_pid-sock_path pid h.0.0 h.0.1).1
    ∙ ap (◌∷◌ pid) (enumerate_sessions-endpoints cap es h.1)
enumerate_sessions-endpoints (suc cap) (role name ∷ es) h =
    enumerate_sessions-none cap (file_name name) (socket_files es) (session_pid-role name h.0)
    ∙ enumerate_sessions-endpoints (suc cap) es h.1
