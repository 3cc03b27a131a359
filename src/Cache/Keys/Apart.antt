-- ===== src/Cache/Keys/Apart.antt =====
-- Requests that share a key of the cache.
use Prim.Native.Char.{Char}
use Prim.Native.String
use text.Mathlib.TextLemmas.{append_cancel_left, cons-eq-cons, cons-append, nil-append}
use poolbeg.Prelude.{
  ℕ, ◌<◌, ◌≡◌, ◌↔◌, refl, sym, ap, ◌∙◌, true, false, some, String, to_decimal, from_str_radix,
  u64_mod, arith,
}
use poolbeg.Prelude.Strings.RoundTrip.{from_str_radix-format_radix}
use poolbeg.Prelude.Strings.Digits.{is_digit, AllDigits, to_decimal-AllDigits}
use poolbeg.Rpc.Types.{JsonRpcRequest}
use poolbeg.Rpc.Codec.{Codec, CollisionFree}
use poolbeg.Cache.Keys.{chain_key, cache_key, normalize_for_cache}

no_digit : (c : Char) (s t : String) → is_digit c ≡ true → String.◌∷◌ c s ≡ String.◌∷◌ ":" t → ⊥
no_digit c s t d e = let colon : is_digit c ≡ false = ap is_digit (cons-eq-cons.0 e).0 in cc

-- Digits in front of a colon are known from the whole text.
digits_first :
    (a b s t : String)
    → AllDigits a
    → AllDigits b
    → String.◌++◌ a (String.◌∷◌ ":" s) ≡ String.◌++◌ b (String.◌∷◌ ":" t)
    → (a ≡ b) × (s ≡ t)
digits_first String.[] String.[] s t h k e = (
  refl,
  (cons-eq-cons.0 (sym (nil-append (String.◌∷◌ ":" s)) ∙ (e ∙ nil-append (String.◌∷◌ ":" t)))).1,
)
digits_first String.[] (String.◌∷◌ d b) s t h (k, _) e = absurd (
    no_digit d _ _ k
      (sym (cons-append d b (String.◌∷◌ ":" t)) ∙ (sym e ∙ nil-append (String.◌∷◌ ":" s))))
digits_first (String.◌∷◌ c a) String.[] s t (h, _) k e = absurd (
    no_digit c _ _ h
      (sym (cons-append c a (String.◌∷◌ ":" s)) ∙ (e ∙ nil-append (String.◌∷◌ ":" t))))
digits_first (String.◌∷◌ c a) (String.◌∷◌ d b) s t (_, h) (_, k) e =
    let both =
      cons-eq-cons.0
        (sym (cons-append c a (String.◌∷◌ ":" s)) ∙ (e ∙ cons-append d b (String.◌∷◌ ":" t))) in
    let (same, rest) = digits_first a b s t h k both.1 in (cc, rest)

to_decimal_inj : (c d : ℕ) → c < u64_mod → d < u64_mod → to_decimal c ≡ to_decimal d → c ≡ d
unfolding to_decimal
to_decimal_inj c d h k e =
    let one = from_str_radix-format_radix 10 c (omega arith) (omega arith) h in
    let two = from_str_radix-format_radix 10 d (omega arith) (omega arith) k in
    let both : some c ≡ some d = sym one ∙ (ap (from_str_radix 10) e ∙ two) in ground (arith, both)

pub chain_key_inj :
    (c d : ℕ) (s t : String)
    → c < u64_mod
    → d < u64_mod
    → chain_key c s ≡ chain_key d t
    → (c ≡ d) × (s ≡ t)
unfolding chain_key
chain_key_inj c d s t h k e =
    let (same, rest) =
      digits_first (to_decimal c) (to_decimal d) s t (to_decimal-AllDigits c)
        (to_decimal-AllDigits d) (append_cancel_left "poolbeg:" _ _ e) in
    (to_decimal_inj c d h k same, rest)

-- Under a hash without collisions, and for chain numbers below 2 ^ 64, two requests share a key exactly
-- if chain, method and parameters agree: the id and the version do not count.
pub cache_key_iff :
    (codec : Codec) (c d : ℕ) (p q : JsonRpcRequest)
    → CollisionFree codec
    → c < u64_mod
    → d < u64_mod
    → (cache_key codec c p ≡ cache_key codec d q)
      ↔ ((c ≡ d) × (p.method ≡ q.method) × (p.params ≡ q.params))
unfolding cache_key normalize_for_cache
cache_key_iff codec c d p q free h k = (
  (λ e.
      let (chain, hash) = chain_key_inj c d _ _ h k e in
      let same = free _ _ hash in (chain, cc, cc)),
  λ (chain, method, params). rw (chain, method, params),
)
