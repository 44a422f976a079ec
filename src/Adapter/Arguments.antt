-- ===== src/Adapter/Arguments.antt =====
-- adapter/displayxr_mcp.c: `main` up to the connection: the command line, the choice of the server,
-- and the exit status. Which servers take a connection and which sessions are found are arguments.
pub mod Print
pub mod Choice
use displayxr_mcp.Prelude.{
  ℕ, zero, suc, ◌+◌, ◌-◌, Bool, true, false, not, ◌&&◌, Option, none, some, List, [], ◌∷◌, ◌++◌,
  map, length, take, drop, if◌then◌else◌, Bytes, ascii, str_eq,
}
use displayxr_mcp.Libc.{decimal}
use displayxr_mcp.Transport.{clip, positive_long, long_max}

-- What the loop over the arguments sets.
pub record Arguments : Type 0 where
  pub target : Option Bytes
  pub list_mode : Bool
  pub expose_diagnostics : Bool

abbrev pub defaults : Arguments
defaults = record { target = none; list_mode = false; expose_diagnostics = false }

pub data Flag : Type 0 where
  target_flag expose_flag pid_flag list_flag other : Flag

pub flag : Bytes → Flag
flag s =
    if str_eq s (ascii "--target")
    then target_flag
    else (if str_eq s (ascii "--expose-diagnostics")
        then expose_flag
        else (if str_eq s (ascii "--pid")
            then pid_flag
            else (if str_eq s (ascii "--list") then list_flag else other)))

-- The target of `--pid`, in `char buf[64]`.
pub pid_target : Bytes → Bytes
pid_target v = if str_eq v (ascii "auto") then ascii "auto" else clip 64 (ascii "pid:" ++ v)

abbrev pub set_target : Bytes → Arguments → Arguments
set_target v a = record a { target = some v }

abbrev pub set_expose : Arguments → Arguments
set_expose a = record a { expose_diagnostics = true }

abbrev pub set_list : Arguments → Arguments
set_list a = record a { list_mode = true }

-- The loop over the arguments behind the program's name; `none` where it prints the usage.
pub parse : List Bytes → Arguments → Option Arguments
parse [] a = some a
parse (s ∷ []) a = elim (flag s) [
  | target_flag ↦ none
  | expose_flag ↦ some (set_expose a)
  | pid_flag ↦ none
  | list_flag ↦ some (set_list a)
  | other ↦ none
]
parse (s ∷ v ∷ rest) a = elim (flag s) [
  | target_flag ↦ parse rest (set_target v a)
  | expose_flag ↦ parse (v ∷ rest) (set_expose a)
  | pid_flag ↦ parse rest (set_target (pid_target v) a)
  | list_flag ↦ parse (v ∷ rest) (set_list a)
  | other ↦ none
]

-- The servers that there are: those that a connection by role or by process id reaches, and the
-- sessions that the enumeration finds, at most 64.
pub record Servers : Type 0 where
  pub reaches_role : Bytes → Bool
  pub reaches_process : ℕ → Bool
  pub sessions : List ℕ

pub data Label : Type 0 where
  role : Bytes → Label
  process : ℕ → Label

-- How `main` goes on: it prints lines and exits with 0, it runs the aggregator, it is the bridge to a
-- server, or it exits with a status.
pub data Outcome : Type 0 where
  prints : List Bytes → Outcome
  aggregates : Bool → Outcome
  bridges : Label → Outcome
  exits : ℕ → Outcome

abbrev pub known_roles : List Bytes
known_roles = ascii "shell" ∷ ascii "service" ∷ []

-- The lines of `--list`.
pub listed_roles : Servers → List Bytes → List Bytes
listed_roles s [] = []
listed_roles s (r ∷ rs) =
    let rest = listed_roles s rs in if s.reaches_role r then r ∷ rest else rest

pub list_lines : Servers → List Bytes
unfolding listed_roles
list_lines s = listed_roles s known_roles ++ map decimal s.sessions

-- A connection to a process.
pub connect_process : Servers → ℕ → Outcome
connect_process s pid = if s.reaches_process pid then bridges (process pid) else exits 1

-- The loop of `--target auto` over the roles; `none` where no role is reached.
pub first_role : Servers → List Bytes → Option Bytes
first_role s [] = none
first_role s (r ∷ rs) = let rest = first_role s rs in if s.reaches_role r then some r else rest

-- A session, if it is the only one.
pub only_session : Servers → List ℕ → Outcome
unfolding connect_process
only_session s [] = exits 1
only_session s (pid ∷ []) = connect_process s pid
only_session s (pid ∷ pid' ∷ pids) = exits 1

pub connect_auto : Servers → Outcome
unfolding first_role only_session
connect_auto s = elim (first_role s known_roles) [
  | some r ↦ bridges (role r)
  | none ↦ only_session s s.sessions
]

-- The target: a process, any server, or a role.
pub connect_target : Servers → Bytes → Outcome
unfolding connect_process connect_auto
connect_target s target =
    if str_eq (take 4 target) (ascii "pid:")
    then (elim (positive_long long_max (drop 4 target)) [
      | none ↦ exits 2
      | some pid ↦ connect_process s pid
    ])
    else (if str_eq target (ascii "auto")
        then connect_auto s
        else (if s.reaches_role target then bridges (role target) else exits 1))

abbrev pub target_or_auto : Option Bytes → Bytes
target_or_auto none = ascii "auto"
target_or_auto (some t) = t

pub choose : Servers → Arguments → Outcome
unfolding list_lines connect_target
choose s a =
    if a.list_mode
    then prints (list_lines s)
    else (if str_eq (target_or_auto a.target) (ascii "workspace")
        then aggregates a.expose_diagnostics
        else connect_target s (target_or_auto a.target))

-- `main`, on the arguments behind the program's name.
pub main_outcome : Servers → List Bytes → Outcome
unfolding parse choose
main_outcome s args = elim (parse args defaults) [ none ↦ exits 2 | some a ↦ choose s a ]
