-- ===== src/Server/Lifecycle/Restart.antt =====
-- src/mcp_server.c: what starting the server does to the tool registry.
use displayxr_mcp.Prelude.{
  ◌+◌, ◌≤◌, ◌<◌, ◌≡◌, ap, ◌∙◌, Bool, true, false, some, [], ◌∷◌, ◌++◌, length, length-append,
  append_assoc, arith,
}
use displayxr_mcp.Server.{Tool, Server, register_tool, max_tools}
use displayxr_mcp.Server.Lifecycle.{
  start, stop_listening, stop_end, register_builtins, start_with_listener,
}

module _ {Json : Type 0} where
  register_tool-room :
      (s : Server Json) (t : Tool Json)
      → length s.tools < max_tools
      → (register_tool s (some t)).0.tools ≡ s.tools ++ (t ∷ [])
  unfolding register_tool
  register_tool-room s t l = ground arith

  register_builtins_lem :
      (echo tail_log : Tool Json) (s : Server Json)
      → length s.tools + 2 ≤ max_tools
      → (register_builtins echo tail_log s).tools ≡ s.tools ++ (echo ∷ tail_log ∷ [])
  unfolding register_builtins
  register_builtins_lem echo tail_log s l =
      let one = register_tool-room s echo (omega arith) in
      let longer : length (register_tool s (some echo)).0.tools < max_tools =
        omega (arith, ap length one, length-append s.tools (echo ∷ [])) in
      register_tool-room (register_tool s (some echo)).0 tail_log longer
      ∙ ap (λ ts. ts ++ (tail_log ∷ [])) one
      ∙ append_assoc s.tools (echo ∷ []) (tail_log ∷ [])

  start-tools :
      (echo tail_log : Tool Json) (s : Server Json) (opened created : Bool)
      → s.thread_started ≡ false
      → (start echo tail_log s opened created).tools ≡ (register_builtins echo tail_log s).tools
  unfolding start start_with_listener
  start-tools echo tail_log s true true h = rw h
  start-tools echo tail_log s true false h = rw h
  start-tools echo tail_log s false created h = rw h

  stopped :
      (s : Server Json)
      → s.active_clients ≡ 0
      → ((stop_end (stop_listening s)).tools ≡ s.tools)
        × ((stop_end (stop_listening s)).thread_started ≡ false)
  unfolding stop_listening stop_end
  stopped s idle = ground arith

  -- A server that is stopped with no client left and started again registers its two built-in tools
  -- behind the tools of before, which the stop has left registered; it holds whether or not the
  -- listener opens and its thread starts, while there is room for two more tools.
  pub start-stop :
      (echo tail_log : Tool Json) (s : Server Json) (opened created : Bool)
      → s.active_clients ≡ 0
      → length s.tools + 2 ≤ max_tools
      → (start echo tail_log (stop_end (stop_listening s)) opened created).tools
        ≡ s.tools ++ (echo ∷ tail_log ∷ [])
  start-stop echo tail_log s opened created idle l =
      let (same, off) = stopped s idle in
      let halted = stop_end (stop_listening s) in
      start-tools echo tail_log halted opened created off
      ∙ register_builtins_lem echo tail_log halted (omega (arith, ap length same))
      ∙ ap (λ ts. ts ++ (echo ∷ tail_log ∷ [])) same
