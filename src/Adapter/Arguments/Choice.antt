-- ===== src/Adapter/Arguments/Choice.antt =====
-- adapter/displayxr_mcp.c: which server the adapter connects to.
use displayxr_mcp.Prelude.{
  ℕ, ◌^◌, ◌<◌, ◌≡◌, refl, sym, ap, ◌∙◌, subst, true, false, none, some, inl, inr, List, [], ◌∷◌,
  ◌++◌, length, take_all, Bytes, ascii, str_eq, arith, Bool-cases,
}
use displayxr_mcp.Libc.{decimal}
use displayxr_mcp.Libc.Decimal.{length-decimal, decimal-Digits, Digits}
use displayxr_mcp.Transport.{long_max}
use displayxr_mcp.Transport.Names.{positive_long-pid}
use displayxr_mcp.Adapter.Arguments.{
  defaults, parse, pid_target, Servers, role, Outcome, bridges, exits, known_roles, connect_process,
  first_role, only_session, connect_auto, connect_target, choose, main_outcome,
}
use displayxr_mcp.Adapter.Arguments.Print.{parse-pid, parse-target, parse-nil}

-- What `--target auto` may end in.
pub data AutoChoice (s : Servers) : Outcome → Type 0 where
  shell : s.reaches_role (ascii "shell") ≡ true → AutoChoice s (bridges (role (ascii "shell")))
  service :
      s.reaches_role (ascii "shell") ≡ false
      → s.reaches_role (ascii "service") ≡ true
      → AutoChoice s (bridges (role (ascii "service")))
  unique :
      (pid : ℕ)
      → s.reaches_role (ascii "shell") ≡ false
      → s.reaches_role (ascii "service") ≡ false
      → s.sessions ≡ pid ∷ []
      → AutoChoice s (connect_process s pid)
  unclear :
      s.reaches_role (ascii "shell") ≡ false
      → s.reaches_role (ascii "service") ≡ false
      → ((pid : ℕ) → s.sessions ≡ pid ∷ [] → ⊥)
      → AutoChoice s (exits 1)

length-one : (ps : List ℕ) (pid : ℕ) → ps ≡ pid ∷ [] → length ps ≡ 1
length-one ps pid e = ap length e

only_session-AutoChoice :
    (s : Servers) (ps : List ℕ)
    → s.sessions ≡ ps
    → s.reaches_role (ascii "shell") ≡ false
    → s.reaches_role (ascii "service") ≡ false
    → AutoChoice s (only_session s ps)
unfolding only_session
only_session-AutoChoice s [] e a b = unclear a b (λ pid h. omega (arith, ap length (sym e ∙ h)))
only_session-AutoChoice s (pid ∷ []) e a b = unique pid a b e
only_session-AutoChoice s (pid ∷ pid' ∷ ps) e a b =
    unclear a b (λ q h. omega (arith, ap length (sym e ∙ h)))

connect_auto-first :
    (s : Servers) (r : Bytes)
    → first_role s known_roles ≡ some r
    → connect_auto s ≡ bridges (role r)
unfolding connect_auto
connect_auto-first s r e = rw (e, connect_auto)

connect_auto-none :
    (s : Servers) → first_role s known_roles ≡ none → connect_auto s ≡ only_session s s.sessions
unfolding connect_auto
connect_auto-none s e = rw (e, connect_auto)

-- Without a target the adapter connects to the shell if it is there, else to the service, and to a
-- process only if neither is there and the process is the only session; otherwise it exits with 1.
pub connect_auto_lem : (s : Servers) → AutoChoice s (connect_auto s)
unfolding first_role
connect_auto_lem s = elim (Bool-cases (s.reaches_role (ascii "shell"))) [
  | inl a ↦ subst (AutoChoice s) (sym (connect_auto-first s _ (rw a refl))) (shell a)
  | inr a ↦ elim (Bool-cases (s.reaches_role (ascii "service"))) [
    | inl b ↦ subst (AutoChoice s) (sym (connect_auto-first s _ (rw (a, b) refl))) (service a b)
    | inr b ↦
        subst (AutoChoice s) (sym (connect_auto-none s (rw (a, b) refl)))
          (only_session-AutoChoice s s.sessions refl a b)
  ]
]

Digits-auto : (ds : Bytes) → Digits ds → str_eq ds (ascii "auto") ≡ false
unfolding str_eq
Digits-auto [] d = refl
Digits-auto (c ∷ cs) d = ground (arith, d.0)

pid_target-decimal : (n : ℕ) → n < 2 ^ 63 → pid_target (decimal n) ≡ ascii "pid:" ++ decimal n
unfolding pid_target
pid_target-decimal n h =
    let size = length-decimal 18 n (omega arith) in
    rw (Digits-auto (decimal n) (decimal-Digits n))
      (take_all 63 (ascii "pid:" ++ decimal n) (omega arith))

connect_target-pid :
    (s : Servers) (n : ℕ)
    → 0 < n
    → n < 2 ^ 63
    → connect_target s (ascii "pid:" ++ decimal n) ≡ connect_process s n
unfolding connect_target str_eq
connect_target-pid s n lo hi = rw (positive_long-pid long_max n lo (omega arith), connect_target)

main_outcome-target :
    (s : Servers) (args : List Bytes) (n : ℕ)
    → parse args defaults ≡ some (record defaults { target = some (ascii "pid:" ++ decimal n) })
    → main_outcome s args ≡ connect_target s (ascii "pid:" ++ decimal n)
unfolding main_outcome choose str_eq
main_outcome-target s args n e = rw (e, main_outcome)

-- The older form `--pid N` is the same as `--target pid:N`: both connect to the process of that
-- decimal number, and exit with 1 if it does not answer. The process id is above 0 and fits a `long`.
pub main_outcome-pid :
    (s : Servers) (n : ℕ)
    → 0 < n
    → n < 2 ^ 63
    → (main_outcome s (ascii "--pid" ∷ decimal n ∷ []) ≡ connect_process s n)
      × (main_outcome s (ascii "--target" ∷ (ascii "pid:" ++ decimal n) ∷ []) ≡ connect_process s n)
main_outcome-pid s n lo hi =
    let old = ap (λ t. some (record defaults { target = some t })) (pid_target-decimal n hi) in
    (
      main_outcome-target s _ n (parse-pid (decimal n) [] defaults ∙ parse-nil _ ∙ old)
          ∙ connect_target-pid s n lo hi,
      main_outcome-target s _ n (parse-target (ascii "pid:" ++ decimal n) [] defaults ∙ parse-nil _)
          ∙ connect_target-pid s n lo hi,
    )
