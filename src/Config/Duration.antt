-- ===== src/Config/Duration.antt =====
-- Durations and TTL values as texts: `parse_duration_string`, `deserialize_ttl` and the `Serialize`
-- instance of `TtlValue` in src/config.rs.
pub mod RoundTrip
use Prim.Native.Char.{Char, code}
use Prim.Native.String
use poolbeg.Prelude.{
  ℕ, ◌*◌, ◌/◌, ◌%◌, ◌≡◌, refl, Bool, ◌&&◌, ◌||◌, Option, none, some, String, str_eq, if◌then◌else◌,
  leb, ◌==◌, u64_mod, from_str_radix, to_decimal,
}
use mathlib.Core.Option
use package.poolbeg.Config.{TtlValue, never, forever, duration}

abbrev pub from_secs : ℕ → ℕ
from_secs s = s * 1000000000

abbrev pub from_millis : ℕ → ℕ
from_millis ms = ms * 1000000

-- `char::is_whitespace`, by code point.
abbrev is_whitespace : Char → Bool
is_whitespace c =
    let k = code c in
    (leb 9 k && leb k 13)
    || k == 32
    || k == 133
    || k == 160
    || k == 5760
    || (leb 8192 k && leb k 8202)
    || k == 8232
    || k == 8233
    || k == 8239
    || k == 8287
    || k == 12288

trim_start : String → String
trim_start String.[] = String.[]
trim_start (String.◌∷◌ c s) = if is_whitespace c then trim_start s else String.◌∷◌ c s

trim_end : String → String
trim_end String.[] = String.[]
trim_end (String.◌∷◌ c s) =
    let rest = trim_end s in
    if is_whitespace c && str_eq rest "" then String.[] else String.◌∷◌ c rest

-- `str::trim` and `str::strip_suffix`.
unfoldable pub trim : String → String
unfolding trim_start trim_end
trim s = trim_end (trim_start s)

unfoldable pub strip_suffix : String → String → Option String
strip_suffix suffix String.[] = if str_eq String.[] suffix then some String.[] else none
strip_suffix suffix (String.◌∷◌ c s) =
    if str_eq (String.◌∷◌ c s) suffix
    then some String.[]
    else Option.map (String.◌∷◌ c) (strip_suffix suffix s)

-- `rest.trim().parse::<u64>().ok()`
abbrev parse_u64 : String → Option ℕ
parse_u64 s = from_str_radix 10 s

-- The products are computed in u64, which wraps in a release build.
unfoldable pub parse_duration_string : String → Option ℕ
unfolding trim strip_suffix from_str_radix
parse_duration_string text =
    let s = trim text in
    elim (strip_suffix "ms" s) [
      | some rest ↦ Option.map from_millis (parse_u64 (trim rest))
      | none ↦ elim (strip_suffix "s" s) [
        | some rest ↦ Option.map from_secs (parse_u64 (trim rest))
        | none ↦ elim (strip_suffix "m" s) [
          | some rest ↦ Option.map (λ mins. from_secs (mins * 60 % u64_mod)) (parse_u64 (trim rest))
          | none ↦ elim (strip_suffix "h" s) [
            | some rest ↦
                Option.map (λ hours. from_secs (hours * 3600 % u64_mod)) (parse_u64 (trim rest))
            | none ↦ Option.map from_secs (parse_u64 s)
          ]
        ]
      ]
    ]

unfoldable pub deserialize_ttl : String → Option TtlValue
deserialize_ttl s =
    if str_eq s "-1"
    then some never
    else if str_eq s "0"
    then some forever
    else Option.map duration (parse_duration_string s)

-- `{}s` with `as_secs()`, which drops a fraction of a second.
unfoldable pub serialize_ttl : TtlValue → String
serialize_ttl never = "-1"
serialize_ttl forever = "0"
serialize_ttl (duration d) = String.◌++◌ (to_decimal (d / 1000000000)) "s"

samples :
    (parse_duration_string " 250ms" ≡ some 250000000)
    × (parse_duration_string "3 s" ≡ some 3000000000)
    × (parse_duration_string "1h" ≡ some 3600000000000)
    × (parse_duration_string "x" ≡ none)
    × (parse_duration_string "12" ≡ some 12000000000)
unfolding parse_duration_string
samples = (refl, refl, refl, refl, refl)
