-- ===== src/Prelude/Strings.antt =====
-- Text: formatting of numbers, `u64::from_str_radix`, and comparison.
pub mod RoundTrip
pub mod Lacks
pub mod Digits
use Prim.Native.Char.{Char, code}
use Prim.Native.String.{String}
use text.Mathlib.Text.{◌==◌ as str_eq, starts_with}
use text.Mathlib.TextEquality.{eq_iff}
use text.Mathlib.TextPositions.{eq_refl}
use Prim.Native.Nat.{ℕ, zero, suc, ◌+◌, ◌-◌, ◌*◌, ◌/◌, ◌%◌, ◌^◌, ◌<◌}
use mathlib.Core.Path.{◌≡◌, refl, ap}
use mathlib.Core.Logic.{inl, inr}
use text.Mathlib.TextLemmas.{cons-eq-cons}
use mathlib.Core.Bool.{Bool, true, false, ◌&&◌, ◌||◌}
use mathlib.Core.Option.{Option, none, some}
use native.Mathlib.Omega.{arith}
use poolbeg.Prelude.Tests.{if◌then◌else◌, ltb, leb, ◌==◌, Bool-cases}

abbrev pub u64_mod : ℕ
u64_mod = 18446744073709551616

abbrev char_at : String → ℕ → Char
char_at String.[] i = "0"
char_at (String.◌∷◌ c s) zero = c
char_at (String.◌∷◌ c s) (suc i) = char_at s i

-- A digit of `{:x}`; `d` is below 16.
hex_digit : ℕ → Char
hex_digit d = char_at "0123456789abcdef" d

-- `emit f b n out` writes the digits of `n` in base `b` in front of `out`.
unfoldable pub emit : ℕ → ℕ → ℕ → String → String
unfolding hex_digit
emit zero b n out = out
emit (suc f) b n out =
    let more = emit f b (n / b) (String.◌∷◌ (hex_digit (n % b)) out) in if n == 0 then out else more

-- `format!("{:x}", n)`, and `n.to_string()` in base ten. 64 rounds write any number below 2 ^ 64.
unfoldable pub format_radix : ℕ → ℕ → String
format_radix b n = if n == 0 then "0" else emit 64 b n ""

-- `format!("0x{:x}", n)`
unfoldable pub to_hex : ℕ → String
unfolding format_radix
to_hex n = String.◌∷◌ "0" (String.◌∷◌ "x" (format_radix 16 n))

unfoldable pub to_decimal : ℕ → String
unfolding format_radix
to_decimal n = format_radix 10 n

-- `char::to_digit(16)`: both cases of a letter are digits.
abbrev pub digit_value : Char → Option ℕ
digit_value c =
    let k = code c in
    if leb b'0' k && leb k b'9'
    then some (k - b'0')
    else if leb b'a' k && leb k b'f'
    then some (k - 87)
    else if leb b'A' k && leb k b'F'
    then some (k - 55)
    else none

-- `char::to_digit(radix)`, and one more digit of a u64: `none` on a bad digit or on overflow.
abbrev digit_in : ℕ → Option ℕ → Option ℕ
digit_in b none = none
digit_in b (some d) = if ltb d b then some d else none

abbrev push_digit : ℕ → ℕ → Option ℕ → Option ℕ
push_digit b acc none = none
push_digit b acc (some d) = if ltb (acc * b + d) u64_mod then some (acc * b + d) else none

scan_digits : ℕ → Option ℕ → String → Option ℕ
scan_digits b none s = none
scan_digits b (some acc) String.[] = some acc
scan_digits b (some acc) (String.◌∷◌ c s) =
    scan_digits b (push_digit b acc (digit_in b (digit_value c))) s

-- `u64::from_str_radix(s, b)`: a leading `+` is accepted, and the empty text is an error.
unfoldable pub from_str_radix : ℕ → String → Option ℕ
unfolding scan_digits
from_str_radix b String.[] = none
from_str_radix b (String.◌∷◌ c String.[]) = scan_digits b (some 0) (String.◌∷◌ c String.[])
from_str_radix b (String.◌∷◌ c (String.◌∷◌ d s)) =
    if code c == b'+'
    then scan_digits b (some 0) (String.◌∷◌ d s)
    else scan_digits b (some 0) (String.◌∷◌ c (String.◌∷◌ d s))

-- `s.trim_start_matches("0x")`, which removes the prefix as often as it stands there.
trim_0x : String → String
trim_0x (String.◌∷◌ c (String.◌∷◌ d s)) =
    let inner = trim_0x s in
    if code c == b'0' && code d == b'x' then inner else String.◌∷◌ c (String.◌∷◌ d s)
trim_0x s = s

-- `u64::from_str_radix(s.trim_start_matches("0x"), 16).ok()`
unfoldable pub parse_hex : String → Option ℕ
unfolding from_str_radix trim_0x
parse_hex s = from_str_radix 16 (trim_0x s)

-- The texts that differ in their first character are not equal.
pub str_ne_head :
    (c d : Char) (s t : String)
    → (code c == code d) ≡ false
    → str_eq (String.◌∷◌ c s) (String.◌∷◌ d t) ≡ false
str_ne_head c d s t h = elim (Bool-cases (str_eq (String.◌∷◌ c s) (String.◌∷◌ d t))) [
  | inl e ↦ absurd (ground (arith, ap code (cons-eq-cons.0 ((eq_iff _ _).0 e)).0))
  | inr e ↦ e
]

abbrev has_first : String → Bool
has_first String.[] = false
has_first (String.◌∷◌ c s) = true

pub str_ne_nil : (c : Char) (s : String) → str_eq (String.◌∷◌ c s) "" ≡ false
str_ne_nil c s = elim (Bool-cases (str_eq (String.◌∷◌ c s) "")) [
  | inl e ↦ let same : true ≡ false = ap has_first ((eq_iff (String.◌∷◌ c s) "").0 e) in absurd (cc)
  | inr e ↦ e
]

hex_numeral : to_hex 1000 ≡ "0x3e8"
unfolding to_hex emit
hex_numeral = refl

parse_numerals :
    (parse_hex "0x3e8" ≡ some 1000)
    × (parse_hex "0x0xFF" ≡ some 255)
    × (parse_hex "0x" ≡ none)
    × (parse_hex "12g" ≡ none)
    × (parse_hex "10000000000000000" ≡ none)
unfolding parse_hex
parse_numerals = (refl, refl, refl, refl, refl)

-- A hexadecimal numeral begins with a zero.
pub to_hex_zero : (n : ℕ) → (s : String) × (to_hex n ≡ String.◌∷◌ "0" s)
unfolding to_hex
to_hex_zero n = (String.◌∷◌ "x" (format_radix 16 n), refl)
