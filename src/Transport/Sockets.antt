-- ===== src/Transport/Sockets.antt =====
-- src/mcp_transport.c: opening and closing of listeners and connections, as the system calls that
-- they make. Whether `socket`, `bind`, `listen` and `connect` succeed is an argument.
use displayxr_mcp.Prelude.{
  ℕ, suc, ◌-◌, ◌≤◌, ◌≡◌, refl, ap, ◌∙◌, Bool, true, false, inl, inr, List, [], ◌∷◌, ◌++◌, length,
  length-append, take_all, Bytes, ascii, arith, Bool-cases, if◌then◌else◌,
}
use displayxr_mcp.Transport.{clip, name_suffix, sock_path_named, sun_path}
use displayxr_mcp.Transport.Names.{file_name}

-- A system call on the descriptor or on a path; a shutdown wakes what is blocked on the descriptor.
pub data Call : Type 0 where
  socket shutdown close listen : Call
  bind connect chmod unlink : Bytes → Call

-- Which of the calls succeed.
pub record Kernel : Type 0 where
  pub sockets : Bool
  pub binds : Bool
  pub listens : Bool
  pub connects : Bool

-- `listener_open_path`: whether there is a listener, and the calls made.
pub listener_open_path : Kernel → Bytes → Bool × List Call
listener_open_path k path =
    let own = clip 128 path in
    if k.sockets
    then (if k.binds
        then (if k.listens
            then (true, unlink own ∷ socket ∷ bind (sun_path own) ∷ chmod own ∷ listen ∷ [])
            else (
              false,
              unlink own
                  ∷ socket
                  ∷ bind (sun_path own)
                  ∷ chmod own
                  ∷ listen
                  ∷ close
                  ∷ unlink own
                  ∷ [],
            ))
        else (false, unlink own ∷ socket ∷ bind (sun_path own) ∷ close ∷ []))
    else (false, unlink own ∷ socket ∷ [])

-- `mcp_listener_open_named`; a role that is not given is the empty one.
pub listener_open_named : Kernel → Bytes → Bool × List Call
listener_open_named k [] = (false, [])
listener_open_named k (c ∷ cs) = listener_open_path k (sock_path_named (c ∷ cs))

-- `mcp_listener_close`, of a listener that is there.
pub listener_close : Bytes → List Call
listener_close path = shutdown ∷ close ∷ unlink (clip 128 path) ∷ []

-- `conn_connect_path`
pub conn_connect_path : Kernel → Bytes → Bool × List Call
conn_connect_path k path =
    if k.sockets
    then (if k.connects
        then (true, socket ∷ connect (sun_path path) ∷ [])
        else (false, socket ∷ connect (sun_path path) ∷ close ∷ []))
    else (false, socket ∷ [])

-- `mcp_conn_connect_named`
pub conn_connect_named : Kernel → Bytes → Bool × List Call
conn_connect_named k [] = (false, [])
conn_connect_named k (c ∷ cs) = conn_connect_path k (sock_path_named (c ∷ cs))

-- `mcp_conn_close`, of a connection that is there.
pub conn_close : List Call
conn_close = shutdown ∷ close ∷ []

-- The descriptors that are open behind the calls, from `n` on.
abbrev pub descriptors : Kernel → ℕ → List Call → ℕ
descriptors k n [] = n
descriptors k n (socket ∷ cs) = descriptors k (if k.sockets then suc n else n) cs
descriptors k n (close ∷ cs) = descriptors k (n - 1) cs
descriptors k n (shutdown ∷ cs) = descriptors k n cs
descriptors k n (listen ∷ cs) = descriptors k n cs
descriptors k n (bind a ∷ cs) = descriptors k n cs
descriptors k n (connect a ∷ cs) = descriptors k n cs
descriptors k n (chmod a ∷ cs) = descriptors k n cs
descriptors k n (unlink a ∷ cs) = descriptors k n cs

-- The paths that the calls name.
abbrev pub AllNamed : Bytes → List Call → Type 0
AllNamed p [] = Unit {0}
AllNamed p (socket ∷ cs) = AllNamed p cs
AllNamed p (close ∷ cs) = AllNamed p cs
AllNamed p (shutdown ∷ cs) = AllNamed p cs
AllNamed p (listen ∷ cs) = AllNamed p cs
AllNamed p (bind a ∷ cs) = (a ≡ p) × AllNamed p cs
AllNamed p (connect a ∷ cs) = (a ≡ p) × AllNamed p cs
AllNamed p (chmod a ∷ cs) = (a ≡ p) × AllNamed p cs
AllNamed p (unlink a ∷ cs) = (a ≡ p) × AllNamed p cs

-- One descriptor for what is open, none for a failure.
abbrev pub held : Bool → ℕ
held true = 1
held false = 0

-- Whatever fails, a listener or a connection that is not returned holds no descriptor, and one that
-- is returned holds one, which its close gives back.
pub open-descriptors :
    (k : Kernel) (role : Bytes)
    → (descriptors k 0 (listener_open_named k role).1 ≡ held (listener_open_named k role).0)
      × (descriptors k 0 (conn_connect_named k role).1 ≡ held (conn_connect_named k role).0)
      × (descriptors k 1 (listener_close (sock_path_named role)) ≡ 0)
      × (descriptors k 1 conn_close ≡ 0)
unfolding listener_open_named conn_connect_named listener_close conn_close listener_open_path
    conn_connect_path
open-descriptors k [] = (refl, refl, refl, refl)
open-descriptors k (c ∷ cs) = (ground arith, ground arith, refl, refl)

-- A role whose path the socket's address holds whole.
abbrev pub IsShort : Bytes → Type 0
IsShort role = length role ≤ 83

sock_path_named-IsShort :
    (role : Bytes)
    → IsShort role
    → (clip 128 (sock_path_named role) ≡ ascii "/tmp/" ++ file_name role)
      × (sun_path (clip 128 (sock_path_named role)) ≡ ascii "/tmp/" ++ file_name role)
      × (sun_path (sock_path_named role) ≡ ascii "/tmp/" ++ file_name role)
sock_path_named-IsShort role h =
    let whole = ascii "/tmp/" ++ file_name role in
    let size : length whole ≤ 107 = omega (arith, length-append role name_suffix) in
    let path : sock_path_named role ≡ whole = take_all 127 whole (omega arith) in
    let own : clip 128 (sock_path_named role) ≡ whole =
      ap (clip 128) path ∙ take_all 127 whole (omega arith) in
    (own, ap sun_path own ∙ take_all 107 whole size, ap sun_path path ∙ take_all 107 whole size)

listener_open_path-AllNamed :
    (k : Kernel) (path p : Bytes)
    → clip 128 path ≡ p
    → sun_path (clip 128 path) ≡ p
    → AllNamed p (listener_open_path k path).1
unfolding listener_open_path
listener_open_path-AllNamed k path p own bound = elim (Bool-cases k.sockets) [
  | inr s ↦ simp s (own, tt)
  | inl s ↦ elim (Bool-cases k.binds) [
    | inr b ↦ simp (s, b) (own, (bound, tt))
    | inl b ↦ elim (Bool-cases k.listens) [
      | inr l ↦ simp (s, b, l) (own, (bound, (own, (own, tt))))
      | inl l ↦ simp (s, b, l) (own, (bound, (own, tt)))
    ]
  ]
]

conn_connect_path-AllNamed :
    (k : Kernel) (path p : Bytes) → sun_path path ≡ p → AllNamed p (conn_connect_path k path).1
unfolding conn_connect_path
conn_connect_path-AllNamed k path p reached = elim (Bool-cases k.sockets) [
  | inr s ↦ simp s tt
  | inl s ↦ elim (Bool-cases k.connects) [
    | inr c ↦ simp (s, c) (reached, tt)
    | inl c ↦ simp (s, c) (reached, tt)
  ]
]

-- For a role of at most 83 bytes, the server and its clients name one and the same file in all their
-- calls, whatever fails: it is unlinked, bound, restricted to its owner and connected to under the
-- one path "/tmp/displayxr-mcp-<role>.sock".
pub open-AllNamed :
    (k : Kernel) (role : Bytes)
    → IsShort role
    → AllNamed (ascii "/tmp/" ++ file_name role) (listener_open_named k role).1
      × AllNamed (ascii "/tmp/" ++ file_name role) (conn_connect_named k role).1
      × AllNamed (ascii "/tmp/" ++ file_name role) (listener_close (sock_path_named role))
unfolding listener_open_named conn_connect_named listener_close
open-AllNamed k [] h = (tt, tt, ((sock_path_named-IsShort [] h).0, tt))
open-AllNamed k (c ∷ cs) h =
    let (own, bound, reached) = sock_path_named-IsShort (c ∷ cs) h in
    (
      listener_open_path-AllNamed k (sock_path_named (c ∷ cs)) _ own bound,
      conn_connect_path-AllNamed k (sock_path_named (c ∷ cs)) _ reached,
      (own, tt),
    )
