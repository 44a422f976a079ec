-- ===== src/Server/Registry.antt =====
-- The tool registry as a table: what a lookup finds after each operation.
use displayxr_mcp.Prelude.{
  ap, ℕ, suc, ◌-◌, ◌≤◌, ◌≡◌, ◌≢◌, refl, ◌&&◌, Option, none, some, List, [], ◌∷◌, ◌++◌, length,
  length-append, length-take, ltb, if◌then◌else◌, Bytes, str_eq, str_eq_iff, arith,
}
use displayxr_mcp.Server.{
  notify_tools_changed, max_tools, Tool, Server, find, find_tool, register_tool, remove,
  unregister_tool, set_app_id,
}

module _ {Json : Type 0} where
  find-append :
      (xs : List (Tool Json)) (t : Tool Json) (name : Bytes)
      → find (xs ++ (t ∷ [])) name ≡ (elim (find xs name) [
        | some u ↦ some u
        | none ↦ if str_eq t.name name then some t else none
      ])
  unfolding find
  find-append [] t name = refl
  find-append (x ∷ xs) t name = ground (arith, find-append xs t name)

  find-remove_ne :
      (ts : List (Tool Json)) (gone name : Bytes)
      → gone ≢ name
      → find (remove ts gone).0 name ≡ find ts name
  unfolding find remove
  find-remove_ne [] gone name ne = refl
  find-remove_ne (t ∷ ts) gone name ne =
      ground (arith, find-remove_ne ts gone name ne, str_eq_iff t.name gone, str_eq_iff t.name name)

  -- How many tools have a name.
  pub occurrences : List (Tool Json) → Bytes → ℕ
  occurrences [] name = 0
  occurrences (t ∷ ts) name =
      if str_eq t.name name then suc (occurrences ts name) else occurrences ts name

  occurrences-remove :
      (ts : List (Tool Json)) (name : Bytes)
      → occurrences (remove ts name).0 name ≡ occurrences ts name - 1
  unfolding occurrences remove
  occurrences-remove [] name = omega arith
  occurrences-remove (t ∷ ts) name = ground (arith, occurrences-remove ts name)

  find-occurrences :
      (ts : List (Tool Json)) (name : Bytes) → occurrences ts name ≡ 0 → find ts name ≡ none
  unfolding occurrences find
  find-occurrences [] name h = refl
  find-occurrences (t ∷ ts) name h = ground (arith, find-occurrences ts name)

  length-remove : (ts : List (Tool Json)) (name : Bytes) → length (remove ts name).0 ≤ length ts
  unfolding remove
  length-remove [] name = omega arith
  length-remove (t ∷ ts) name = ground (arith, length-remove ts name)

  -- A lookup after a registration finds what it found before; failing that, it finds the new tool
  -- under its own name, if the registry was not full.
  pub find_tool-register_tool :
      (s : Server Json) (t : Tool Json) (name : Bytes)
      → find_tool (register_tool s (some t)).0 name ≡ (elim (find_tool s name) [
        | some u ↦ some u
        | none ↦ if ltb (length s.tools) max_tools && str_eq t.name name then some t else none
      ])
  unfolding find_tool register_tool
  find_tool-register_tool s t name = ground (arith, find-append s.tools t name)

  removed-remove :
      (ts : List (Tool Json)) (name : Bytes) → (remove ts name).1 ≡ ltb 0 (occurrences ts name)
  unfolding occurrences remove
  removed-remove [] name = ground arith
  removed-remove (t ∷ ts) name = ground (arith, removed-remove ts name)

  -- Unregistering a name leaves every other name's tool as it was and takes away one tool of that
  -- name, if there is one: the lookup then fails if the name was registered at most once. The
  -- clients are notified exactly when there was one.
  pub find_tool-unregister_tool :
      (s : Server Json) (gone : Bytes)
      → ((name : Bytes)
          → gone ≢ name
          → find_tool (unregister_tool s (some gone)).0 name ≡ find_tool s name)
        × (occurrences (unregister_tool s (some gone)).0.tools gone ≡ occurrences s.tools gone - 1)
        × (occurrences s.tools gone ≤ 1 → find_tool (unregister_tool s (some gone)).0 gone ≡ none)
        × ((unregister_tool s (some gone)).1
            ≡ (if ltb 0 (occurrences s.tools gone) then notify_tools_changed s else []))
  unfolding find_tool unregister_tool
  find_tool-unregister_tool s gone = (
    find-remove_ne s.tools gone,
    occurrences-remove s.tools gone,
    λ once. find-occurrences _ gone (omega (arith, occurrences-remove s.tools gone)),
    ap (λ b. if b then notify_tools_changed s else []) (removed-remove s.tools gone),
  )

-- The operations on the registry.
pub data Op (Json : Type 0) : Type 0 where
  registers : Option (Tool Json) → Op Json
  unregisters names : Option Bytes → Op Json

module _ {Json : Type 0} where
  unfoldable pub step : Server Json → Op Json → Server Json
  step s (registers t) = (register_tool s t).0
  step s (unregisters name) = (unregister_tool s name).0
  step s (names id) = (set_app_id s id).0

  unfoldable pub run : Server Json → List (Op Json) → Server Json
  unfolding step
  run s [] = s
  run s (o ∷ os) = run (step s o) os

  -- What the tools mutex guards: at most 64 tools, and an app id that fits its buffer.
  pub record IsBounded (s : Server Json) : Type 0 where
    pub tools_fit : length s.tools ≤ max_tools
    pub app_id_fits : length s.app_id ≤ 32

  register_tool-IsBounded :
      (s : Server Json) (t : Tool Json) → IsBounded s → IsBounded (register_tool s (some t)).0
  unfolding register_tool
  register_tool-IsBounded s t v = ground (arith, length-append s.tools (t ∷ []))

  unregister_tool-IsBounded :
      (s : Server Json) (name : Bytes) → IsBounded s → IsBounded (unregister_tool s (some name)).0
  unfolding unregister_tool
  unregister_tool-IsBounded s name v = record {
    tools_fit = omega (arith, v.tools_fit, length-remove s.tools name);
    app_id_fits = v.app_id_fits;
  }

  set_app_id-IsBounded :
      (s : Server Json) (id : Bytes) → IsBounded s → IsBounded (set_app_id s (some id)).0
  unfolding set_app_id
  set_app_id-IsBounded s id v = ground (arith, length-take 32 id)

  step-IsBounded : (s : Server Json) (o : Op Json) → IsBounded s → IsBounded (step s o)
  unfolding step register_tool unregister_tool set_app_id
  step-IsBounded s (registers none) v = v
  step-IsBounded s (registers (some t)) v = register_tool-IsBounded s t v
  step-IsBounded s (unregisters none) v = v
  step-IsBounded s (unregisters (some name)) v = unregister_tool-IsBounded s name v
  step-IsBounded s (names none) v = v
  step-IsBounded s (names (some id)) v = set_app_id-IsBounded s id v

  -- No sequence of registrations, unregistrations and app ids that starts within the bounds
  -- overflows the registry or the id.
  pub run-IsBounded : (os : List (Op Json)) (s : Server Json) → IsBounded s → IsBounded (run s os)
  unfolding run
  run-IsBounded [] s v = v
  run-IsBounded (o ∷ os) s v = run-IsBounded os (step s o) (step-IsBounded s o v)
