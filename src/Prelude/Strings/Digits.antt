-- ===== src/Prelude/Strings/Digits.antt =====
-- The decimal text of a number has digits only, and at least one.
use Prim.Native.Char.{Char, code}
use Prim.Native.String.{String}
use Prim.Native.Nat.{ℕ, zero, suc, ◌/◌, ◌%◌}
use mathlib.Core.Path.{◌≡◌, refl}
use mathlib.Core.Logic.{inl, inr}
use mathlib.Core.Bool.{Bool, true, ◌&&◌}
use native.Mathlib.Nat.{mod-lt}
use native.Mathlib.Omega.{arith}
use poolbeg.Prelude.Tests.{◌==◌, leb, Bool-cases}
use poolbeg.Prelude.Strings.{hex_digit, emit, to_decimal, format_radix}
use poolbeg.Prelude.Strings.RoundTrip.{passes, passes-lt, format_radix_cons}

abbrev pub is_digit : Char → Bool
is_digit c = leb b'0' (code c) && leb (code c) b'9'

abbrev pub AllDigits : String → Type 0
AllDigits String.[] = Unit {0}
AllDigits (String.◌∷◌ c s) = (is_digit c ≡ true) × AllDigits s

digit_ten : passes (λ d. is_digit (hex_digit d)) 10 ≡ true
unfolding passes hex_digit
digit_ten = refl

emit-AllDigits : (f n : ℕ) (out : String) → AllDigits out → AllDigits (emit f 10 n out)
unfolding emit
emit-AllDigits zero n out h = h
emit-AllDigits (suc f) n out h = elim (Bool-cases (n == 0)) [
  | inl e ↦ rw e h
  | inr e ↦ rw e (
      emit-AllDigits f (n / 10) (String.◌∷◌ (hex_digit (n % 10)) out) (
        passes-lt (λ d. is_digit (hex_digit d)) 10 (n % 10) (mod-lt n {m = 10} (omega arith))
            digit_ten,
        h,
      ))
]

pub to_decimal-AllDigits : (n : ℕ) → AllDigits (to_decimal n)
unfolding to_decimal format_radix
to_decimal-AllDigits n = elim (Bool-cases (n == 0)) [
  | inl e ↦ rw e (refl, tt)
  | inr e ↦ rw e (emit-AllDigits 64 n "" tt)
]

pub to_decimal_cons : (n : ℕ) → (c : Char) × (s : String) × (to_decimal n ≡ String.◌∷◌ c s)
unfolding to_decimal
to_decimal_cons n = format_radix_cons 10 n (omega arith) (omega arith)
