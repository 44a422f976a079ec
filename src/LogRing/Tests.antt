-- ===== src/LogRing/Tests.antt =====
-- src/mcp_log_ring.c: the log on concrete lines.
use displayxr_mcp.Prelude.{◌≡◌, ◌++◌, false, some, List, [], ◌∷◌, ascii, arith}
use displayxr_mcp.LogRing.{info, warn, initial, read}
use displayxr_mcp.LogRing.History.{Event, starts, texts, formats, run, log, read_history}
use displayxr_mcp.LogRing.Refine.{read-run, run-Holds, initial-Holds, Holds}
use displayxr_mcp.LogRing.Stream.{read-read}

-- A line before the start, which is lost, then three lines, one of them formatted.
abbrev three_lines : List Event
three_lines =
    texts 1 info (some (ascii "early"))
    ∷ starts
    ∷ texts 2 info (some (ascii "one"))
    ∷ formats 3 warn (some (ascii "two"))
    ∷ texts 4 info (some (ascii "three"))
    ∷ []

read-run_example : read (run initial three_lines) 1 8 ≡ read_history (log false [] three_lines) 1 8
read-run_example = read-run three_lines 1 8 (omega arith) (omega arith)

three_lines-Holds : Holds (run initial three_lines) (log false [] three_lines)
three_lines-Holds = run-Holds three_lines initial [] initial-Holds (omega arith)

read-read_example :
    let first = read (run initial three_lines) 0 1 in
    let second = read (run initial three_lines) first.next_cursor 2 in
    (first.entries ++ second.entries ≡ (read (run initial three_lines) 0 3).entries)
    × (second.next_cursor ≡ (read (run initial three_lines) 0 3).next_cursor)
    × (second.dropped ≡ 0)
unfolding log
read-read_example =
    read-read {r = run initial three_lines} {h = log false [] three_lines} 0 1 2 three_lines-Holds
      (omega arith)
