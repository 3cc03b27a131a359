-- ===== src/Value.antt =====
-- The JSON values that the program's handlers take apart: `serde_json::Value` as the source
-- matches on it, with the accessors that it calls (`as_str`, `as_array`, `get`, `is_null`).
-- A number is its text, since the program only prints, copies and compares numbers. An object keeps
-- its keys in order (the `preserve_order` feature). Reading and printing JSON text are parameters of
-- the modules that need them.
use poolbeg.Prelude.{
  Bool, true, false, List, [], ◌∷◌, Option, none, some, String, str_eq, if◌then◌else◌,
}

mutual
  pub data Value : Type 0 where
    null : Value
    bool : Bool → Value
    number : String → Value
    string : String → Value
    array : Items → Value
    object : Fields → Value

  pub data Items : Type 0 where
    nil : Items
    cons : Value → Items → Items

  pub data Fields : Type 0 where
    end : Fields
    field : String → Value → Fields → Fields

abbrev pub to_list : Items → List Value
to_list nil = []
to_list (cons v vs) = v ∷ to_list vs

abbrev pub of_list : List Value → Items
of_list [] = nil
of_list (v ∷ vs) = cons v (of_list vs)

-- `Value::Array(vec)`, and a JSON object literal.
abbrev pub array_of : List Value → Value
array_of vs = array (of_list vs)

abbrev pub is_null : Value → Bool
is_null null = true
is_null _ = false

abbrev pub as_str : Value → Option String
as_str (string s) = some s
as_str _ = none

abbrev pub as_array : Value → Option (List Value)
as_array (array vs) = some (to_list vs)
as_array _ = none

abbrev pub get_field : String → Fields → Option Value
get_field k end = none
get_field k (field j v fs) = if str_eq j k then some v else get_field k fs

-- `v.get("key")`: none unless `v` is an object that has the key.
abbrev pub get : Value → String → Option Value
get (object fs) k = get_field k fs
get _ k = none

-- `v["key"]`: null where the key is missing.
abbrev pub index : Value → String → Value
index v k = elim (get v k) [ none ↦ null | some w ↦ w ]
