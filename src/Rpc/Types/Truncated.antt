-- ===== src/Rpc/Types/Truncated.antt =====
-- `truncate_json` of src/rpc/types.rs, which shortens values for the log, and when it panics.
use Prim.Native.Char.{Char, code}
use Prim.Native.String
use text.Mathlib.TextLemmas.{cons-append, nil-append}
use mathlib.Core.Option
use poolbeg.Prelude.{
  ℕ, ◌+◌, ◌-◌, ◌≤◌, ◌<◌, ◌≡◌, ◌↔◌, refl, sym, ap, subst, ◌∙◌, true, false, Option, none, some,
  String, ltb, leb, ◌==◌, if◌then◌else◌, to_decimal, Bool-cases, Option-cases, inl, inr, arith,
  some_mapped,
}
use poolbeg.Value.{Value}
use poolbeg.Rpc.Codec.{Codec}

-- `char::len_utf8`
unfoldable pub len_utf8 : Char → ℕ
len_utf8 c =
    let k = code c in
    if ltb k 128 then 1 else if ltb k 2048 then 2 else if ltb k 65536 then 3 else 4

-- `str::len`, in bytes.
unfoldable pub byte_length : String → ℕ
byte_length String.[] = 0
byte_length (String.◌∷◌ c s) = len_utf8 c + byte_length s

-- `&s[..n]`: `none` is the panic, on an index past the end or inside a character.
unfoldable pub slice_to : ℕ → String → Option String
slice_to n String.[] = if n == 0 then some String.[] else none
slice_to n (String.◌∷◌ c s) =
    let rest = slice_to (n - len_utf8 c) s in
    if n == 0
    then some String.[]
    else if leb (len_utf8 c) n
    then Option.map (String.◌∷◌ c) rest
    else none

unfoldable pub truncate_json : Codec → Value → ℕ → Option String
truncate_json codec val max_len =
    let s = codec.encode_value val in
    if leb (byte_length s) max_len
    then some s
    else Option.map
        (λ head.
          String.◌++◌ head
            (String.◌++◌ "... (" (String.◌++◌ (to_decimal (byte_length s)) " bytes)")))
        (slice_to max_len s)

len_utf8_positive : (c : Char) → 0 < len_utf8 c
unfolding len_utf8
len_utf8_positive c = ground arith

module _ (n : ℕ) (c : Char) (s : String) where
  slice_stop : (n == 0) ≡ true → slice_to n (String.◌∷◌ c s) ≡ some ""
  unfolding slice_to
  slice_stop e = rw e

  slice_short : (n == 0) ≡ false → leb (len_utf8 c) n ≡ false → slice_to n (String.◌∷◌ c s) ≡ none
  unfolding slice_to
  slice_short e h = rw e (rw h)

  slice_step :
      (n == 0) ≡ false
      → leb (len_utf8 c) n ≡ true
      → slice_to n (String.◌∷◌ c s) ≡ Option.map (String.◌∷◌ c) (slice_to (n - len_utf8 c) s)
  unfolding slice_to
  slice_step e h = rw e (rw h)

-- The text is a prefix of `n` bytes.
abbrev pub IsPrefix : ℕ → String → String → Type 0
IsPrefix n s p = ((q : String) × (s ≡ String.◌++◌ p q)) × (byte_length p ≡ n)

empty-IsPrefix : (n : ℕ) (s p : String) → (n == 0) ≡ true → "" ≡ p → IsPrefix n s p
unfolding byte_length
empty-IsPrefix n s p e same = rw⁻¹ same ((s, sym (nil-append s)), ground arith)

cons-IsPrefix :
    (n : ℕ) (c : Char) (s p : String)
    → leb (len_utf8 c) n ≡ true
    → IsPrefix (n - len_utf8 c) s p
    → IsPrefix n (String.◌∷◌ c s) (String.◌∷◌ c p)
unfolding byte_length
cons-IsPrefix n c s p fits ((q, split), size) =
    ((q, ap (String.◌∷◌ c) split ∙ sym (cons-append c p q)), ground (arith, size, fits))

slice_to-IsPrefix : (n : ℕ) (s p : String) → slice_to n s ≡ some p → IsPrefix n s p
unfolding slice_to
slice_to-IsPrefix n String.[] p e = elim (Bool-cases (n == 0)) [
  | inl z ↦ empty-IsPrefix n String.[] p z (ground arith)
  | inr z ↦ absurd (ground arith)
]
slice_to-IsPrefix n (String.◌∷◌ c s) p e = elim (Bool-cases (n == 0)) [
  | inl z ↦
      let same = sym (slice_stop n c s z) ∙ e in
      empty-IsPrefix n (String.◌∷◌ c s) p z (ground (arith, same))
  | inr z ↦ elim (Bool-cases (leb (len_utf8 c) n)) [
    | inr short ↦ let wrong = sym (slice_short n c s z short) ∙ e in absurd (cc)
    | inl fits ↦
        let (p', rest, same) =
          some_mapped (String.◌∷◌ c) (slice_to (n - len_utf8 c) s) p
            (sym (slice_step n c s z fits) ∙ e) in
        subst (IsPrefix n (String.◌∷◌ c s)) same
          (cons-IsPrefix n c s p' fits (slice_to-IsPrefix (n - len_utf8 c) s p' rest))
  ]
]

slice_to_nothing : (s : String) → slice_to 0 s ≡ some ""
unfolding slice_to
slice_to_nothing String.[] = refl
slice_to_nothing (String.◌∷◌ c s) = refl

slice_to-byte_length : (p q : String) → slice_to (byte_length p) (String.◌++◌ p q) ≡ some p
unfolding byte_length
slice_to-byte_length String.[] q = slice_to_nothing (String.◌++◌ "" q)
slice_to-byte_length (String.◌∷◌ c p) q =
    let n = len_utf8 c + byte_length p in
    let positive = len_utf8_positive c in
    let back : n - len_utf8 c ≡ byte_length p = omega arith in
    ap (slice_to n) (cons-append c p q)
    ∙ (slice_step n c (String.◌++◌ p q) (ground (arith, positive)) (ground arith)
        ∙ ap (Option.map (String.◌∷◌ c))
            (ap (λ k. slice_to k (String.◌++◌ p q)) back ∙ slice_to-byte_length p q))

-- The slice panics exactly if no prefix has that many bytes.
slice_to_iff : (n : ℕ) (s : String) → (slice_to n s ≡ none) ↔ ((p : String) → IsPrefix n s p → ⊥)
slice_to_iff n s = (
  never,
  λ none_fits. elim (Option-cases (slice_to n s)) [
    | inl e ↦ e
    | inr (p, e) ↦ absurd (none_fits p (slice_to-IsPrefix n s p e))
  ],
)
  where
    never : slice_to n s ≡ none → (p : String) → IsPrefix n s p → ⊥
    never e p ((q, split), size) =
        let found : slice_to n s ≡ some p =
          rw⁻¹ size (ap (slice_to (byte_length p)) split ∙ slice_to-byte_length p q) in
        absurd (cc)

map-none {ℓ κ} :
    {A : Type ℓ} {B : Type κ} (f : A → B) (o : Option A) → (Option.map f o ≡ none) ↔ (o ≡ none)
map-none f none = ((λ e. refl), λ e. refl)
map-none f (some a) = ((λ e. absurd (cc)), λ e. absurd (cc))

module _ (codec : Codec) (val : Value) (max_len : ℕ) where
  truncate_short :
      byte_length (codec.encode_value val) ≤ max_len
      → truncate_json codec val max_len ≡ some (codec.encode_value val)
  unfolding truncate_json
  truncate_short h =
      let fits : leb (byte_length (codec.encode_value val)) max_len ≡ true = ground arith in rw fits

  truncate_long :
      max_len < byte_length (codec.encode_value val)
      → (truncate_json codec val max_len ≡ none)
        ↔ (slice_to max_len (codec.encode_value val) ≡ none)
  unfolding truncate_json
  truncate_long h =
      let long : leb (byte_length (codec.encode_value val)) max_len ≡ false = ground arith in
      rw (long, truncate_json) (map-none _ (slice_to max_len (codec.encode_value val)))

  -- The function panics exactly if the text of the value has more than `max_len` bytes and none of its
  -- prefixes has exactly `max_len`, so that the cut would fall inside a character.
  pub truncate_json_iff : (truncate_json codec val max_len ≡ none) ↔ (
      (max_len < byte_length (codec.encode_value val))
      × ((p : String) → IsPrefix max_len (codec.encode_value val) p → ⊥))
  truncate_json_iff = (
    panics,
    λ (h, none_fits).
        (truncate_long h).1 ((slice_to_iff max_len (codec.encode_value val)).1 none_fits),
  )
    where
      panics :
          truncate_json codec val max_len ≡ none
          → (max_len < byte_length (codec.encode_value val))
            × ((p : String) → IsPrefix max_len (codec.encode_value val) p → ⊥)
      panics e = elim (Bool-cases (leb (byte_length (codec.encode_value val)) max_len)) [
        | inl fits ↦ let wrong = sym (truncate_short (ground (arith, fits))) ∙ e in absurd (cc)
        | inr long ↦
            let h : max_len < byte_length (codec.encode_value val) = ground (arith, long) in
            (h, (slice_to_iff max_len (codec.encode_value val)).0 ((truncate_long h).0 e))
      ]
