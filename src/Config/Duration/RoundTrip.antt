-- ===== src/Config/Duration/RoundTrip.antt =====
-- Reading back a TTL that was written.
use Prim.Native.Char.{Char}
use Prim.Native.String
use text.Mathlib.TextLemmas.{cons-append, nil-append, cons-eq-cons}
use poolbeg.Prelude.{
  ℕ, ◌/◌, ◌<◌, ◌≡◌, ◌≢◌, refl, sym, ap, subst, ◌∙◌, true, false, none, some, String, str_eq, eq_iff,
  str_ne_head, str_ne_nil, u64_mod, to_decimal, from_str_radix, Bool-cases, inl, inr, arith,
}
use poolbeg.Prelude.Strings.RoundTrip.{from_str_radix-format_radix}
use poolbeg.Prelude.Strings.Digits.{is_digit, AllDigits, to_decimal-AllDigits, to_decimal_cons}
use poolbeg.Config.{TtlValue, never, forever, duration}
use poolbeg.Config.Duration.{
  from_secs, is_whitespace, trim_start, trim_end, trim, strip_suffix, parse_duration_string,
  deserialize_ttl, serialize_ttl,
}

abbrev NoSpace : String → Type 0
NoSpace String.[] = Unit {0}
NoSpace (String.◌∷◌ c s) = (is_whitespace c ≡ false) × NoSpace s

trim_end-NoSpace : (s : String) → NoSpace s → trim_end s ≡ s
unfolding trim_end
trim_end-NoSpace String.[] h = refl
trim_end-NoSpace (String.◌∷◌ c s) (no_space, h) =
    rw no_space (ap (String.◌∷◌ c) (trim_end-NoSpace s h))

trim-NoSpace : (s : String) → NoSpace s → trim s ≡ s
unfolding trim trim_start
trim-NoSpace String.[] h = refl
trim-NoSpace (String.◌∷◌ c s) (no_space, h) =
    rw no_space (trim_end-NoSpace (String.◌∷◌ c s) (no_space, h))

digit_no_space : (c : Char) → is_digit c ≡ true → is_whitespace c ≡ false
digit_no_space c d = ground arith

-- Digits with the unit of seconds behind them.
abbrev seconds : String → String
seconds s = String.◌++◌ s "s"

seconds_nil : seconds "" ≡ "s"
seconds_nil = nil-append "s"

seconds_cons : (c : Char) (s : String) → seconds (String.◌∷◌ c s) ≡ String.◌∷◌ c (seconds s)
seconds_cons c s = cons-append c s "s"

digits-NoSpace : (s : String) → AllDigits s → NoSpace s
digits-NoSpace String.[] h = tt
digits-NoSpace (String.◌∷◌ c s) (d, h) = (digit_no_space c d, digits-NoSpace s h)

seconds-NoSpace : (s : String) → AllDigits s → NoSpace (seconds s)
seconds-NoSpace String.[] h = subst NoSpace (sym seconds_nil) (refl, tt)
seconds-NoSpace (String.◌∷◌ c s) (d, h) =
    subst NoSpace (sym (seconds_cons c s)) (digit_no_space c d, seconds-NoSpace s h)

-- A digit is not the first character of a text that begins with another one.
digit_head :
    (c d : Char) (s t : String)
    → is_digit c ≡ true
    → is_digit d ≡ false
    → str_eq (String.◌∷◌ c s) (String.◌∷◌ d t) ≡ false
digit_head c d s t h k = str_ne_head c d s t (ground arith)

strip_milliseconds : (s : String) → AllDigits s → strip_suffix "ms" (seconds s) ≡ none
unfolding strip_suffix
strip_milliseconds String.[] h = ap (strip_suffix "ms") seconds_nil
strip_milliseconds (String.◌∷◌ c s) (d, h) =
    ap (strip_suffix "ms") (seconds_cons c s)
    ∙ (rw (digit_head c "m" (seconds s) "s" d refl) (rw (strip_milliseconds s h)))

strip_seconds : (s : String) → AllDigits s → strip_suffix "s" (seconds s) ≡ some s
unfolding strip_suffix
strip_seconds String.[] h = ap (strip_suffix "s") seconds_nil
strip_seconds (String.◌∷◌ c s) (d, h) =
    ap (strip_suffix "s") (seconds_cons c s)
    ∙ (rw (digit_head c "s" (seconds s) "" d refl) (rw (strip_seconds s h)))

-- The steps of `parse_duration_string` on digits with the unit of seconds.
parse_digits :
    (s : String) (n : ℕ)
    → AllDigits s
    → from_str_radix 10 s ≡ some n
    → parse_duration_string (seconds s) ≡ some (from_secs n)
unfolding parse_duration_string
parse_digits s n h e =
    let trimmed = trim-NoSpace (seconds s) (seconds-NoSpace s h) in
    rw (ap (strip_suffix "ms") trimmed ∙ strip_milliseconds s h, parse_duration_string)
      (rw (ap (strip_suffix "s") trimmed ∙ strip_seconds s h)
        (rw (trim-NoSpace s (digits-NoSpace s h)) (rw e)))

seconds_ne_nil : (s : String) → seconds s ≢ ""
seconds_ne_nil String.[] e =
    let wrong : true ≡ false = ap (λ t. str_eq t "s") (sym seconds_nil ∙ e) in absurd (cc)
seconds_ne_nil (String.◌∷◌ c s) e =
    let wrong : false ≡ true =
      sym (str_ne_nil c (seconds s)) ∙ ap (λ t. str_eq t "") (sym (seconds_cons c s) ∙ e) in
    absurd (cc)

-- The two texts that stand for no duration begin otherwise, or are shorter.
not_forever : (c : Char) (s : String) → str_eq (String.◌∷◌ c (seconds s)) "0" ≡ false
not_forever c s = elim (Bool-cases (str_eq (String.◌∷◌ c (seconds s)) "0")) [
  | inr e ↦ e
  | inl e ↦
      let same : seconds s ≡ "" =
        (cons-eq-cons.0 ((eq_iff (String.◌∷◌ c (seconds s)) "0").0 e)).1 in
      absurd (seconds_ne_nil s same)
]

deserialize_digits :
    (c : Char) (s : String) (n : ℕ)
    → AllDigits (String.◌∷◌ c s)
    → from_str_radix 10 (String.◌∷◌ c s) ≡ some n
    → deserialize_ttl (seconds (String.◌∷◌ c s)) ≡ some (duration (from_secs n))
unfolding deserialize_ttl
deserialize_digits c s n (d, h) e =
    rw (ap (λ t. str_eq t "-1") (seconds_cons c s) ∙ digit_head c "-" (seconds s) "1" d refl) (
      rw (ap (λ t. str_eq t "0") (seconds_cons c s) ∙ not_forever c s)
        (rw (parse_digits (String.◌∷◌ c s) n (d, h) e)))

read_decimal : (n : ℕ) → n < u64_mod → from_str_radix 10 (to_decimal n) ≡ some n
unfolding to_decimal
read_decimal n w = from_str_radix-format_radix 10 n (omega arith) (omega arith) w

abbrev pub Fits : TtlValue → Type 0
Fits (duration d) = d / 1000000000 < u64_mod
Fits _ = Unit {0}

-- The whole seconds of a duration.
abbrev pub whole_seconds : TtlValue → TtlValue
whole_seconds (duration d) = duration (from_secs (d / 1000000000))
whole_seconds v = v

-- A TTL below 2 ^ 64 seconds that is written reads back as its whole seconds; the two special values read
-- back as they were.
pub deserialize_ttl-serialize_ttl :
    (v : TtlValue) → Fits v → deserialize_ttl (serialize_ttl v) ≡ some (whole_seconds v)
unfolding deserialize_ttl serialize_ttl
deserialize_ttl-serialize_ttl never h = refl
deserialize_ttl-serialize_ttl forever h = refl
deserialize_ttl-serialize_ttl (duration d) h =
    let n = d / 1000000000 in
    let (c, s, shape) = to_decimal_cons n in
    ap (λ t. deserialize_ttl (seconds t)) shape
    ∙ deserialize_digits c s n (subst AllDigits shape (to_decimal-AllDigits n))
        (ap (from_str_radix 10) (sym shape) ∙ read_decimal n h)
