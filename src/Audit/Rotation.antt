-- ===== src/Audit/Rotation.antt =====
-- src/mcp_audit.c: what the two files hold after an entry.
use displayxr_mcp.Prelude.{
  ℕ, ◌+◌, ◌≤◌, ◌<◌, ◌≡◌, refl, sym, ap, ◌∙◌, subst, true, Option, none, some, inl, inr, ◌++◌,
  length, length-append, ltb, Bytes, arith, Bool-cases,
}
use displayxr_mcp.Audit.{
  Audit, bytes_of, max_file_bytes, ensure_path, rotate, rotate_if_needed, entry, write_entry,
  append,
}

-- What an entry may do to the two files `old` and `log`.
pub data Logged (line : Bytes) (a a' : Audit) : Type 0 where
  appended :
      length (bytes_of a.current) < max_file_bytes
      → bytes_of a'.current ≡ bytes_of a.current ++ line
      → a'.backup ≡ a.backup
      → Logged line a a'
  rotated :
      max_file_bytes ≤ length (bytes_of a.current)
      → a'.current ≡ some line
      → a'.backup ≡ a.current
      → Logged line a a'

-- An entry that is written behind the rotation.
Logged-write :
    (line : Bytes) (a : Audit) (current : Option Bytes)
    → a.current ≡ current
    → Logged line a (write_entry true line (rotate_if_needed true a current))
unfolding write_entry rotate_if_needed rotate
Logged-write line a none e = appended (omega (arith, ap (λ f. length (bytes_of f)) e)) refl refl
Logged-write line a (some log) e = elim (Bool-cases (ltb (length log) max_file_bytes)) [
  | inl small ↦ rw small (appended (ground (arith, ap (λ f. length (bytes_of f)) e)) refl refl)
  | inr large ↦ rw large (rotated (ground (arith, ap (λ f. length (bytes_of f)) e)) refl (sym e))
]

ensure_path-files :
    (home : Option Bytes) (a : Audit)
    → ((ensure_path home a).0.current ≡ a.current) × ((ensure_path home a).0.backup ≡ a.backup)
unfolding ensure_path
ensure_path-files home a = elim (Bool-cases a.initialized) [
  | inl before ↦ (simp before refl, simp before refl)
  | inr first ↦ (simp first refl, simp first refl)
]

Logged-ensured :
    (line : Bytes) (a a' a'' : Audit)
    → a'.current ≡ a.current
    → a'.backup ≡ a.backup
    → Logged line a' a''
    → Logged line a a''
Logged-ensured line a a' a'' c b (appended small all old) =
    appended (subst (λ f. length (bytes_of f) < max_file_bytes) c small)
      (all ∙ ap (λ f. bytes_of f ++ line) c) (old ∙ b)
Logged-ensured line a a' a'' c b (rotated large new old) =
    rotated (subst (λ f. max_file_bytes ≤ length (bytes_of f)) c large) new (old ∙ c)

append-writes :
    (home : Option Bytes) (now client_id args_hash : ℕ) (tool : Bytes) (a : Audit)
    → (ensure_path home a).1 ≡ true
    → append home true true now tool client_id args_hash a
      ≡ write_entry true
          (entry now tool client_id args_hash)
          (rotate_if_needed true (ensure_path home a).0 (ensure_path home a).0.current)
unfolding append
append-writes home now client_id args_hash tool a e = rw e

-- Where the log has a path and the file system does what it is asked, an entry is added behind the
-- log while that is below 1 MiB, and the backup is kept; from 1 MiB on the whole log becomes the
-- backup and the entry begins a new log. So no entry is lost but those of the backup replaced.
pub append_lem :
    (home : Option Bytes) (now client_id args_hash : ℕ) (tool : Bytes) (a : Audit)
    → (ensure_path home a).1 ≡ true
    → Logged
        (entry now tool client_id args_hash)
        a
        (append home true true now tool client_id args_hash a)
append_lem home now client_id args_hash tool a e =
    let (current, backup) = ensure_path-files home a in
    let a' = (ensure_path home a).0 in
    let line = entry now tool client_id args_hash in
    subst (Logged line a) (sym (append-writes home now client_id args_hash tool a e))
      (Logged-ensured line a a' _ current backup (Logged-write line a' a'.current refl))

Logged-bounded :
    (line : Bytes) (a a' : Audit)
    → Logged line a a'
    → length (bytes_of a'.current) < max_file_bytes + length line
Logged-bounded line a a' (appended small all old) =
    omega (arith, ap length all, length-append (bytes_of a.current) line)
Logged-bounded line a a' (rotated large new old) = omega (arith, ap (λ f. length (bytes_of f)) new)

-- The log stays below 1 MiB and one entry, however large it was before.
pub append-bounded :
    (home : Option Bytes) (now client_id args_hash : ℕ) (tool : Bytes) (a : Audit)
    → (ensure_path home a).1 ≡ true
    → length (bytes_of (append home true true now tool client_id args_hash a).current)
      < max_file_bytes + length (entry now tool client_id args_hash)
append-bounded home now client_id args_hash tool a e =
    Logged-bounded (entry now tool client_id args_hash) a _
      (append_lem home now client_id args_hash tool a e)
