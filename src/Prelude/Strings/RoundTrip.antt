-- ===== src/Prelude/Strings/RoundTrip.antt =====
-- Reading back a number that `format!` wrote, in any base up to sixteen.
use Prim.Native.Char.{Char, code}
use Prim.Native.String.{String}
use Prim.Native.Nat.{ℕ, zero, suc, ◌+◌, ◌*◌, ◌/◌, ◌%◌, ◌≤◌, ◌<◌}
use mathlib.Core.Path.{◌≡◌, refl, ap, subst, ◌∙◌}
use mathlib.Core.Logic.{◌≢◌, inl, inr}
use mathlib.Core.Bool.{Bool, true, false, not, ◌&&◌}
use mathlib.Core.Option.{Option, none, some}
use native.Mathlib.Nat.{mod-lt, mul-le-mul_right, mul-div-le, div-le_self}
use native.Mathlib.Omega.{arith}
use poolbeg.Prelude.Tests.{◌==◌, Bool-cases, lt→ltb}
use poolbeg.Prelude.Strings.{
  u64_mod, hex_digit, emit, format_radix, to_hex, digit_in, push_digit, digit_value, scan_digits,
  from_str_radix, trim_0x, parse_hex,
}

abbrev pow2 : ℕ → ℕ
pow2 zero = 1
pow2 (suc f) = 2 * pow2 f

-- A character that neither the sign nor the prefix test of the readers matches.
abbrev IsPlain : Char → Type 0
IsPlain c = (code c ≢ b'+') × (code c ≢ b'x')

abbrev AllPlain : String → Type 0
AllPlain String.[] = Unit {0}
AllPlain (String.◌∷◌ c s) = IsPlain c × AllPlain s

-- A test on all digits of a base.
unfoldable pub passes : (ℕ → Bool) → ℕ → Bool
passes test zero = true
passes test (suc base) = passes test base && test base

pub passes-lt : (test : ℕ → Bool) (base d : ℕ) → d < base → passes test base ≡ true → test d ≡ true
unfolding passes
passes-lt test zero d inside all = absurd (omega (arith, inside))
passes-lt test (suc base) d inside all =
    let lower = passes-lt test base d in ground (arith, inside, all, lower)

-- What the readers need of a digit: its value, and that it is plain.
digit_test : ℕ → Bool
unfolding hex_digit
digit_test d =
    elim (digit_value (hex_digit d)) [ none ↦ false | some k ↦ k == d ]
    && not (code (hex_digit d) == b'+')
    && not (code (hex_digit d) == b'x')

digit_table : passes digit_test 16 ≡ true
unfolding passes digit_test
digit_table = refl

digit_facts : (d : ℕ) → d < 16 → (digit_value (hex_digit d) ≡ some d) × IsPlain (hex_digit d)
unfolding digit_test
digit_facts d h =
    let t = passes-lt digit_test 16 d h digit_table in
    facts (digit_value (hex_digit d)) (code (hex_digit d)) t
  where
    facts :
        (v : Option ℕ) (k : ℕ)
        → (elim v [ none ↦ false | some k ↦ k == d ] && not (k == b'+') && not (k == b'x')) ≡ true
        → (v ≡ some d) × ((k ≢ b'+') × (k ≢ b'x'))
    facts none k t = absurd (cc)
    facts (some v) k t = ground arith

emit-AllPlain :
    (f b n : ℕ) (out : String) → 2 ≤ b → b ≤ 16 → AllPlain out → AllPlain (emit f b n out)
unfolding emit
emit-AllPlain zero b n out lo hi h = h
emit-AllPlain (suc f) b n out lo hi h = elim (Bool-cases (n == 0)) [
  | inl e ↦ rw e h
  | inr e ↦ rw e (
      emit-AllPlain f b (n / b) (String.◌∷◌ (hex_digit (n % b)) out) lo hi
        ((digit_facts (n % b) (omega (arith, mod-lt n {m = b} (omega arith)))).1, h))
]

push_last :
    (b n : ℕ)
    → 2 ≤ b
    → b ≤ 16
    → n < u64_mod
    → push_digit b (n / b) (digit_in b (digit_value (hex_digit (n % b)))) ≡ some n
push_last b n lo hi w =
    let small : n % b < b = grind arith in
    let whole : n / b * b + n % b ≡ n = grind arith in
    rw (digit_facts (n % b) (omega arith)).0 (rw (lt→ltb _ _ small) (rw whole (rw (lt→ltb _ _ w))))

div_half : (b n p : ℕ) → 2 ≤ b → n < 2 * p → n / b < p
div_half b n p lo h = omega (arith, mul-le-mul_right (n / b) lo, mul-div-le n b)

-- The digits that `emit` puts in front are read back as the number, before what follows is read.
scan-emit :
    (f b n : ℕ) (out : String)
    → 2 ≤ b
    → b ≤ 16
    → n < pow2 f
    → n < u64_mod
    → scan_digits b (some 0) (emit f b n out) ≡ scan_digits b (some n) out
unfolding emit scan_digits
scan-emit zero b n out lo hi small w = let z : n ≡ 0 = omega arith in rw z
scan-emit (suc f) b n out lo hi small w = elim (Bool-cases (n == 0)) [
  | inl e ↦ let z : n ≡ 0 = ground arith in rw z
  | inr e ↦ rw e (
      scan-emit f b (n / b) (String.◌∷◌ (hex_digit (n % b)) out) lo hi
        (div_half b n (pow2 f) lo small) (omega (arith, div-le_self n b))
      ∙ ap (λ o. scan_digits b o out) (push_last b n lo hi w))
]

read_plain :
    (b : ℕ) (c : Char) (s : String)
    → AllPlain (String.◌∷◌ c s)
    → from_str_radix b (String.◌∷◌ c s) ≡ scan_digits b (some 0) (String.◌∷◌ c s)
unfolding from_str_radix
read_plain b c String.[] h = refl
read_plain b c (String.◌∷◌ d s) h = ground arith

trim_plain : (s : String) → AllPlain s → trim_0x s ≡ s
unfolding trim_0x
trim_plain String.[] h = refl
trim_plain (String.◌∷◌ c String.[]) h = refl
trim_plain (String.◌∷◌ c (String.◌∷◌ d s)) h = ground arith

emit_cons :
    (f b n : ℕ) (c : Char) (out : String)
    → (d : Char) × (t : String) × (emit f b n (String.◌∷◌ c out) ≡ String.◌∷◌ d t)
unfolding emit
emit_cons zero b n c out = (c, out, refl)
emit_cons (suc f) b n c out = elim (Bool-cases (n == 0)) [
  | inl e ↦ (c, out, rw e)
  | inr e ↦ rw e (emit_cons f b (n / b) (hex_digit (n % b)) (String.◌∷◌ c out))
]

-- A numeral: its characters are plain, and there is at least one.
record IsNumeral (s : String) : Type 0 where
  all_plain : AllPlain s
  head : Char
  rest : String
  shape : s ≡ String.◌∷◌ head rest

emit_step :
    (f b n : ℕ) (out : String)
    → (n == 0) ≡ false
    → emit (suc f) b n out ≡ emit f b (n / b) (String.◌∷◌ (hex_digit (n % b)) out)
unfolding emit
emit_step f b n out e = rw e

zero-IsNumeral : IsNumeral "0"
zero-IsNumeral = record {
  all_plain = (((λ e. absurd (omega arith)), (λ e. absurd (omega arith))), tt);
  head = "0";
  rest = "";
  shape = refl;
}

emit-IsNumeral : (b n : ℕ) → 2 ≤ b → b ≤ 16 → (n == 0) ≡ false → IsNumeral (emit 64 b n "")
emit-IsNumeral b n lo hi e =
    let (d, t, p) = emit_cons 63 b (n / b) (hex_digit (n % b)) "" in
    record {
      all_plain = emit-AllPlain 64 b n "" lo hi tt;
      head = d;
      rest = t;
      shape = emit_step 63 b n "" e ∙ p;
    }

format_radix-IsNumeral : (b n : ℕ) → 2 ≤ b → b ≤ 16 → IsNumeral (format_radix b n)
unfolding format_radix
format_radix-IsNumeral b n lo hi = elim (Bool-cases (n == 0)) [
  | inl e ↦ rw e zero-IsNumeral
  | inr e ↦ rw e (emit-IsNumeral b n lo hi e)
]

-- The text of a number is not empty.
pub format_radix_cons :
    (b n : ℕ) → 2 ≤ b → b ≤ 16 → (c : Char) × (s : String) × (format_radix b n ≡ String.◌∷◌ c s)
format_radix_cons b n lo hi = let r = format_radix-IsNumeral b n lo hi in (r.head, r.rest, r.shape)

scan-format_radix :
    (b n : ℕ) → 2 ≤ b → b ≤ 16 → n < u64_mod → scan_digits b (some 0) (format_radix b n) ≡ some n
unfolding format_radix scan_digits
scan-format_radix b n lo hi w = elim (Bool-cases (n == 0)) [
  | inl e ↦ rw e (ground arith)
  | inr e ↦ rw e (scan-emit 64 b n "" lo hi w w)
]

read_numeral : (b : ℕ) (s : String) → IsNumeral s → from_str_radix b s ≡ scan_digits b (some 0) s
read_numeral b s r = rw r.shape (read_plain b r.head r.rest (subst AllPlain r.shape r.all_plain))

-- A number below 2 ^ 64 that is formatted in base `b` is read back.
pub from_str_radix-format_radix :
    (b n : ℕ) → 2 ≤ b → b ≤ 16 → n < u64_mod → from_str_radix b (format_radix b n) ≡ some n
from_str_radix-format_radix b n lo hi w =
    read_numeral b (format_radix b n) (format_radix-IsNumeral b n lo hi)
    ∙ scan-format_radix b n lo hi w

pub parse_hex-to_hex : (n : ℕ) → n < u64_mod → parse_hex (to_hex n) ≡ some n
unfolding parse_hex to_hex
parse_hex-to_hex n w =
    rw
      (trim_plain (format_radix 16 n)
        (format_radix-IsNumeral 16 n (omega arith) (omega arith)).all_plain)
      (from_str_radix-format_radix 16 n (omega arith) (omega arith) w)
