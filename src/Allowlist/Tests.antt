-- ===== src/Allowlist/Tests.antt =====
-- src/mcp_allowlist.c: the allowlist on concrete values of the variable.
use displayxr_mcp.Prelude.{ℕ, ◌≡◌, ◌↔◌, true, false, some, List, [], ◌∷◌, ascii, arith, take}
use mathlib.Core.List.{Mem}
use displayxr_mcp.Allowlist.{lp64, llp64, initial, init, allows, max_entries}
use displayxr_mcp.Allowlist.Parse.{csv, Ids}
use displayxr_mcp.Allowlist.Policy.{allows-init-csv, allows-init_llp64}

abbrev two_ids : List ℕ
two_ids = 7 ∷ 4000000000 ∷ []

two_ids-Ids : Ids two_ids
two_ids-Ids = (omega arith, (omega arith, tt))

allows-init-csv_example :
    (allows (init lp64 (some (csv two_ids)) initial) 7 ≡ true) ↔ Mem 7 (take max_entries two_ids)
allows-init-csv_example = allows-init-csv two_ids 7 two_ids-Ids

allows-init_llp64_example : allows (init llp64 (some (ascii "1,2")) initial) 2 ≡ false
allows-init_llp64_example = allows-init_llp64 (ascii "1,2") 2
