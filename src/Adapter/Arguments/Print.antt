-- ===== src/Adapter/Arguments/Print.antt =====
-- adapter/displayxr_mcp.c: the command lines that `main` takes, and what they set.
use displayxr_mcp.Prelude.{◌≡◌, refl, Option, none, some, List, [], ◌∷◌, ◌++◌, Bytes, ascii, str_eq}
use displayxr_mcp.Adapter.Arguments.{
  Arguments, other, flag, pid_target, set_target, set_expose, set_list, parse,
}

-- What a caller can ask for.
pub data Setting : Type 0 where
  target_is pid_is : Bytes → Setting
  exposes lists : Setting

abbrev pub apply : Setting → Arguments → Arguments
apply (target_is v) a = set_target v a
apply (pid_is v) a = set_target (pid_target v) a
apply exposes a = set_expose a
apply lists a = set_list a

abbrev pub apply_all : List Setting → Arguments → Arguments
apply_all [] a = a
apply_all (s ∷ ss) a = apply_all ss (apply s a)

-- The command line for a list of settings.
abbrev pub command : List Setting → List Bytes
command [] = []
command (target_is v ∷ ss) = ascii "--target" ∷ v ∷ command ss
command (pid_is v ∷ ss) = ascii "--pid" ∷ v ∷ command ss
command (exposes ∷ ss) = ascii "--expose-diagnostics" ∷ command ss
command (lists ∷ ss) = ascii "--list" ∷ command ss

-- What no command line goes on with: a word that is no flag, or a flag without its value.
pub data Malformed : List Bytes → Type 0 where
  unknown_word : (s : Bytes) (rest : List Bytes) → flag s ≡ other → Malformed (s ∷ rest)
  no_target : Malformed (ascii "--target" ∷ [])
  no_pid : Malformed (ascii "--pid" ∷ [])

-- A command line is taken, with its settings made in order, or it is refused at the first place
-- where it is malformed.
pub data Parsed (args : List Bytes) (a : Arguments) : Option Arguments → Type 0 where
  taken : (ss : List Setting) → args ≡ command ss → Parsed args a (some (apply_all ss a))
  refused :
      (ss : List Setting) (m : List Bytes)
      → args ≡ command ss ++ m
      → Malformed m
      → Parsed args a none

-- What a flag is.
data FlagIs (s : Bytes) : Type 0 where
  is_target : s ≡ ascii "--target" → FlagIs s
  is_expose : s ≡ ascii "--expose-diagnostics" → FlagIs s
  is_pid : s ≡ ascii "--pid" → FlagIs s
  is_list : s ≡ ascii "--list" → FlagIs s
  is_other : flag s ≡ other → FlagIs s

pub parse-nil : (a : Arguments) → parse [] a ≡ some a
unfolding parse
parse-nil a = refl

pub parse-target :
    (v : Bytes) (rest : List Bytes) (a : Arguments)
    → parse (ascii "--target" ∷ v ∷ rest) a ≡ parse rest (set_target v a)
unfolding parse flag str_eq
parse-target v rest a = refl

pub parse-pid :
    (v : Bytes) (rest : List Bytes) (a : Arguments)
    → parse (ascii "--pid" ∷ v ∷ rest) a ≡ parse rest (set_target (pid_target v) a)
unfolding parse flag str_eq
parse-pid v rest a = refl

-- The parser on one list of arguments.
abbrev IsParsed : List Bytes → Arguments → Type 0
IsParsed args a = Parsed args a (parse args a)
