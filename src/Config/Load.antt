-- ===== src/Config/Load.antt =====
-- `interpolate_env_vars` and `Config::load` of src/config.rs. The environment is a function from names to
-- values, and the YAML reader a parameter.
pub mod Interpolated
pub mod Outcomes
use Prim.Native.Char.{Char, code}
use Prim.Native.String
use poolbeg.Prelude.{
  ℕ, Bool, true, false, Option, none, some, String, str_eq, ◌&&◌, ◌==◌, if◌then◌else◌, unwrap_or,
}
use package.poolbeg.Config.{Config}
use package.poolbeg.Config.Routes.{ConfigError, validate}

-- A character before the first part.
abbrev pub before : Char → Option (String × String) → Option (String × String)
before x none = none
before x (some (a, b)) = some (String.◌∷◌ x a, b)

-- `split_once(":-")`
unfoldable pub split_default : String → Option (String × String)
split_default String.[] = none
split_default (String.◌∷◌ x String.[]) = none
split_default (String.◌∷◌ x (String.◌∷◌ y s)) =
    let rest = split_default (String.◌∷◌ y s) in
    if code x == code ":"
    then if code y == code "-" then some (String.[], s) else before x rest
    else before x rest

-- The text up to the first closing brace; none if there is no brace.
unfoldable pub up_to_brace : String → Option String
up_to_brace String.[] = none
up_to_brace (String.◌∷◌ x s) =
    let rest = up_to_brace s in
    if code x == code "}"
    then some String.[]
    else elim rest [ some e ↦ some (String.◌∷◌ x e) | none ↦ none ]

-- The capture of `\$\{([^}]+)\}` at the front of a text: at least one character.
unfoldable pub capture : String → Option String
capture String.[] = none
capture (String.◌∷◌ x String.[]) = none
capture (String.◌∷◌ x (String.◌∷◌ y s)) =
    if code x == code "$" && code y == code "{"
    then elim (up_to_brace s) [ some e ↦ if str_eq e "" then none else some e | none ↦ none ]
    else none

-- The closure given to `replace_all`.
unfoldable pub value_of : (String → Option String) → String → String
value_of env expr = elim (split_default expr) [
  | some (name, default) ↦ let v = unwrap_or (env name) "" in if str_eq v "" then default else v
  | none ↦ unwrap_or (env expr) ""
]

-- `replace_all`: matches from left to right, none inside another. `true` is inside a match, whose rest is
-- passed over up to its brace.
unfoldable pub interpolate : (String → Option String) → Bool → String → String
interpolate env inside String.[] = String.[]
interpolate env true (String.◌∷◌ x s) =
    interpolate env (if code x == code "}" then false else true) s
interpolate env false (String.◌∷◌ x s) =
    let matched = interpolate env true s in
    let rest = interpolate env false s in
    elim (capture (String.◌∷◌ x s)) [
      | some expr ↦ String.◌++◌ (value_of env expr) matched
      | none ↦ String.◌∷◌ x rest
    ]

unfoldable pub interpolate_env_vars : (String → Option String) → String → String
interpolate_env_vars env input = interpolate env false input

pub data LoadError : Type 0 where
  unreadable bad_yaml : LoadError
  invalid : ConfigError → LoadError

pub data Loaded : Type 0 where
  loaded : Config → Loaded
  failed : LoadError → Loaded

-- `raw` is the file's text, if it can be read.
unfoldable pub load : (String → Option String) → (String → Option Config) → Option String → Loaded
load env from_yaml none = failed unreadable
load env from_yaml (some raw) = elim (from_yaml (interpolate_env_vars env raw)) [
  | none ↦ failed bad_yaml
  | some config ↦ elim (validate config.chains) [
    | none ↦ loaded config
    | some e ↦ failed (invalid e)
  ]
]
