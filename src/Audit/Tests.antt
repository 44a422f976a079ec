-- ===== src/Audit/Tests.antt =====
-- src/mcp_audit.c: the first entry of a log.
use displayxr_mcp.Prelude.{◌≡◌, refl, true, false, some, none, [], ascii}
use displayxr_mcp.Audit.{Audit, path_of, log_path, ensure_path, entry, append}
use displayxr_mcp.Audit.Rotation.{Logged, append_lem}

abbrev fresh : Audit
fresh = record { initialized = false; path = []; current = none; backup = none }

fresh-ensured : (ensure_path (some (ascii "/home/u")) fresh).1 ≡ true
unfolding ensure_path path_of log_path
fresh-ensured = refl

append_lem_example :
    Logged
      (entry 5 (ascii "launch") 7 9)
      fresh
      (append (some (ascii "/home/u")) true true 5 (ascii "launch") 7 9 fresh)
append_lem_example = append_lem (some (ascii "/home/u")) 5 7 9 (ascii "launch") fresh fresh-ensured
