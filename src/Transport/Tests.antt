-- ===== src/Transport/Tests.antt =====
-- src/mcp_transport.c on the sockets of two processes and of the shell, and on reads and writes in parts.
use displayxr_mcp.Prelude.{ℕ, ◌≡◌, refl, List, [], ◌∷◌, take, ascii, arith}
use displayxr_mcp.Transport.{
  ReadOutcome, takes, PollOutcome, poll_interrupted, writable, enumerate_sessions, conn_read,
  arrives, read_interrupted, write_bounded,
}
use displayxr_mcp.Wire as Wire
use displayxr_mcp.Transport.Names.{Endpoint, process, role, socket_files, processes}
use displayxr_mcp.Transport.Pipes.{enumerate_pipes}
use displayxr_mcp.Transport.Pipes.Agree.{pipe_files, enumerate_pipes-enumerate_sessions}
use displayxr_mcp.Transport.Reading.{answer, conn_read-conn_read, arriving}
use displayxr_mcp.Transport.Writing.{Settled, write_bounded-Settled}

abbrev endpoints : List Endpoint
endpoints = process 12 ∷ role (ascii "shell") ∷ process 345 ∷ []

enumerate_pipes-enumerate_sessions_example :
    (enumerate_pipes 64 (pipe_files endpoints) ≡ take 64 (processes endpoints))
    × (enumerate_pipes 64 (pipe_files endpoints) ≡ enumerate_sessions 64 (socket_files endpoints))
enumerate_pipes-enumerate_sessions_example =
    enumerate_pipes-enumerate_sessions 64 endpoints
      ((omega arith, omega arith), ((refl, refl, refl, refl), ((omega arith, omega arith), tt)))
      (omega arith, (omega arith, tt))

-- Two bytes, a signal, and two more.
abbrev parts : List ReadOutcome
parts = arrives (ascii "ab") ∷ read_interrupted ∷ arrives (ascii "cd") ∷ []

conn_read-conn_read_example : answer (conn_read 3 parts) ≡ Wire.conn_read 3 (arriving parts)
conn_read-conn_read_example = conn_read-conn_read 3 parts

-- A bounded write of 250 ms whose peer takes two bytes and then no more.
abbrev stalled : List (ℕ × PollOutcome)
stalled = (0, writable (takes 1)) ∷ (100, poll_interrupted) ∷ (250, poll_interrupted) ∷ []

write_bounded-Settled_example : Settled (ascii "abc") (write_bounded 250 stalled (ascii "abc"))
write_bounded-Settled_example = write_bounded-Settled 250 stalled (ascii "abc")
