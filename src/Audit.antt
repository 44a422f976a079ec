-- ===== src/Audit.antt =====
-- src/mcp_audit.c on POSIX: the path of the log, its rotation, and the entries. The state is the
-- static `g_state` and the two files that it stands for; the lock makes each function one step.
-- What HOME, the clock and the file system answer is an argument.
pub mod Rotation
mod Tests
use displayxr_mcp.Prelude.{
  ℕ, zero, suc, ◌+◌, ◌*◌, ◌/◌, ◌%◌, Bool, true, false, not, Option, none, some, List, [], ◌∷◌, ◌++◌,
  length, ltb, if◌then◌else◌, Bytes, ascii,
}
use displayxr_mcp.Libc.{decimal}
use displayxr_mcp.Transport.{clip}

-- MAX_FILE_BYTES
abbrev pub max_file_bytes : ℕ
max_file_bytes = 1024 * 1024

-- `g_state`, without its mutex, with the file at `path` and the one at `path` with ".1", if they are
-- there.
pub record Audit : Type 0 where
  pub initialized : Bool
  pub path : Bytes
  pub current : Option Bytes
  pub backup : Option Bytes

-- "<home>/.config/displayxr" in `char dir[512]`, and the log in it in `char path[1024]`.
unfoldable pub log_path : Bytes → Bytes
log_path home = clip 1024 (clip 512 (home ++ ascii "/.config/displayxr") ++ ascii "/mcp-audit.log")

-- `path[0] != '\0'`
abbrev pub is_set : Bytes → Bool
is_set [] = false
is_set (c ∷ cs) = true

-- The path for a value of HOME; without one it is empty.
unfoldable pub path_of : Option Bytes → Bytes
unfolding log_path
path_of none = []
path_of (some []) = []
path_of (some (c ∷ cs)) = log_path (c ∷ cs)

-- `ensure_path_locked`: the first call finds the path. The result is whether there is one.
unfoldable pub ensure_path : Option Bytes → Audit → Audit × Bool
unfolding path_of
ensure_path home a =
    if a.initialized
    then (a, is_set a.path)
    else (record a { initialized = true; path = path_of home }, is_set (path_of home))

-- The removal of the old backup, and the rename over it if that succeeds.
pub rotate : Bool → Audit → Bytes → Audit
rotate renames a log =
    if renames then record a { current = none; backup = some log } else record a { backup = none }

-- `rotate_if_needed_locked`, by what `stat` finds.
pub rotate_if_needed : Bool → Audit → Option Bytes → Audit
unfolding rotate
rotate_if_needed renames a none = a
rotate_if_needed renames a (some log) =
    if ltb (length log) max_file_bytes then a else rotate renames a log

-- "%016llx": sixteen hexadecimal digits.
pub hex_digit : ℕ → ℕ
hex_digit n = if ltb n 10 then b'0' + n else 87 + n

pub hex : ℕ → ℕ → Bytes
unfolding hex_digit
hex zero n = []
hex (suc k) n = hex k (n / 16) ++ (hex_digit (n % 16) ∷ [])

-- One entry: the time, the tool, the client and the hash of the arguments.
pub entry : ℕ → Bytes → ℕ → ℕ → Bytes
unfolding hex
entry now tool client_id args_hash =
    decimal now
    ++ (ascii ","
        ++ (tool
            ++ (ascii ","
                ++ (decimal client_id ++ (ascii ",0x" ++ (hex 16 args_hash ++ ascii "\n"))))))

-- The bytes of a file; none where there is no file.
abbrev pub bytes_of : Option Bytes → Bytes
bytes_of none = []
bytes_of (some s) = s

-- The write to the file that `fopen` in mode "ab" opens or makes.
pub write_entry : Bool → Bytes → Audit → Audit
write_entry opens line a =
    if opens then record a { current = some (bytes_of a.current ++ line) } else a

-- `mcp_audit_append`, of a tool's name that is there.
pub append : Option Bytes → Bool → Bool → ℕ → Bytes → ℕ → ℕ → Audit → Audit
unfolding ensure_path rotate_if_needed entry write_entry
append home renames opens now tool client_id args_hash a =
    let (a', ok) = ensure_path home a in
    if ok
    then write_entry opens (entry now tool client_id args_hash)
        (rotate_if_needed renames a' a'.current)
    else a'

-- `mcp_audit_path`
pub audit_path : Option Bytes → Audit → Audit × Bytes
unfolding ensure_path
audit_path home a = let a' = (ensure_path home a).0 in (a', a'.path)
