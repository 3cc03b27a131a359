-- ===== src/Middleware/Auth.antt =====
-- The API key check: src/middleware/auth.rs. A request is its path, the text of its `X-Api-Key` header (none
-- if there is none that is text) and its query. `none` passes the request on, `some` is the body of the
-- answer with status 401.
pub mod Query
use Prim.Native.Char.{Char, code}
use Prim.Native.String
use poolbeg.Prelude.{
  ℕ, Bool, true, false, List, [], ◌∷◌, Option, none, some, String, str_eq, any, ◌==◌, if◌then◌else◌,
  and_then, filter_map, lookup,
}
use poolbeg.Value.{Value, null, string, number, object, field, end}

pub record AuthRequest : Type 0 where
  pub path : String
  pub x_api_key : Option String
  pub query : Option String

abbrev push_char : Char → List String → List String
push_char x [] = (String.◌∷◌ x String.[]) ∷ []
push_char x (p ∷ ps) = (String.◌∷◌ x p) ∷ ps

-- `str::split` at a character.
unfoldable pub split : Char → String → List String
split c String.[] = String.[] ∷ []
split c (String.◌∷◌ x s) =
    let rest = split c s in if code x == code c then String.[] ∷ rest else push_char x rest

abbrev push_first : Char → Option (String × String) → Option (String × String)
push_first x none = none
push_first x (some (a, b)) = some (String.◌∷◌ x a, b)

-- `str::split_once` at a character.
unfoldable pub split_once : Char → String → Option (String × String)
split_once c String.[] = none
split_once c (String.◌∷◌ x s) =
    let rest = split_once c s in if code x == code c then some (String.[], s) else push_first x rest

-- The value of the first pair whose name is `key`; a part without `=` is no pair.
unfoldable pub query_key : String → Option String
query_key q = lookup "key" (filter_map (split_once "=") (split "&" q))

unfoldable pub api_key : AuthRequest → Option String
api_key req = elim req.x_api_key [ some k ↦ some k | none ↦ and_then req.query query_key ]

unfoldable pub unauthorized_body : Value
unauthorized_body = object (
    field "jsonrpc" (string "2.0") (
      field "error"
        (object (
          field "code" (number "-32001")
            (field "message" (string "Unauthorized: invalid or missing API key") end)))
        (field "id" null end)))

unfoldable pub auth_middleware : List String → AuthRequest → Option Value
auth_middleware valid_keys req = if str_eq req.path "/health" then none else elim (api_key req) [
  | some k ↦ if any (λ v. str_eq v k) valid_keys then none else some unauthorized_body
  | none ↦ some unauthorized_body
]
