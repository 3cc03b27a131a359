-- ===== src/Tests/Exact.antt =====
-- A printer of JSON values from whose text the value is known: a codec without collisions.
use Prim.Native.Char.{Char, code}
use text.Mathlib.TextLemmas.{cons-eq-cons}
use poolbeg.Prelude.{◌≡◌, refl, ap, true, false, String, ◌==◌, arith}
use poolbeg.Value.{
  Value, null, bool, number, string, array, object, Items, nil, cons, Fields, end, field,
}
use poolbeg.Rpc.Codec.{Codec, CollisionFree}
use poolbeg.Tests.Samples.{codec}

-- A text in front of another one: each character has a comma before it.
print_text : String → String → String
print_text String.[] r = String.◌∷◌ "." r
print_text (String.◌∷◌ c s) r = String.◌∷◌ "," (String.◌∷◌ c (print_text s r))

mutual
  pub print : Value → String → String
  print null r = String.◌∷◌ "n" r
  print (bool true) r = String.◌∷◌ "b" (String.◌∷◌ "1" r)
  print (bool false) r = String.◌∷◌ "b" (String.◌∷◌ "0" r)
  print (number t) r = String.◌∷◌ "d" (print_text t r)
  print (string t) r = String.◌∷◌ "s" (print_text t r)
  print (array vs) r = String.◌∷◌ "a" (print_items vs r)
  print (object fs) r = String.◌∷◌ "o" (print_fields fs r)

  print_items : Items → String → String
  print_items nil r = String.◌∷◌ "." r
  print_items (cons v vs) r = String.◌∷◌ "," (print v (print_items vs r))

  print_fields : Fields → String → String
  print_fields end r = String.◌∷◌ "." r
  print_fields (field k v fs) r = String.◌∷◌ "," (print_text k (print v (print_fields fs r)))

apart :
    {c d : Char} {s t : String} → (code c == code d) ≡ false → String.◌∷◌ c s ≡ String.◌∷◌ d t → ⊥
apart f e = ground (arith, f, ap code (cons-eq-cons.0 e).0)

tail_of : {c d : Char} {s t : String} → String.◌∷◌ c s ≡ String.◌∷◌ d t → s ≡ t
tail_of e = (cons-eq-cons.0 e).1

print_text_inj : (s t r q : String) → print_text s r ≡ print_text t q → (s ≡ t) × (r ≡ q)
unfolding print_text
print_text_inj String.[] String.[] r q e = (refl, tail_of e)
print_text_inj String.[] (String.◌∷◌ d t) r q e = absurd (apart refl e)
print_text_inj (String.◌∷◌ c s) String.[] r q e = absurd (apart refl e)
print_text_inj (String.◌∷◌ c s) (String.◌∷◌ d t) r q e =
    let both = cons-eq-cons.0 (tail_of e) in
    let (same, rest) = print_text_inj s t r q both.1 in (cc, rest)

mutual
  unfolding print print_items print_fields

  print_inj : (v w : Value) (r q : String) → print v r ≡ print w q → (v ≡ w) × (r ≡ q)
  print_inj null null r q e = (refl, tail_of e)
  print_inj null (bool true) r q e = absurd (apart refl e)
  print_inj null (bool false) r q e = absurd (apart refl e)
  print_inj null (number t') r q e = absurd (apart refl e)
  print_inj null (string t') r q e = absurd (apart refl e)
  print_inj null (array vs') r q e = absurd (apart refl e)
  print_inj null (object fs') r q e = absurd (apart refl e)
  print_inj (bool true) null r q e = absurd (apart refl e)
  print_inj (bool true) (bool true) r q e = (refl, tail_of (tail_of e))
  print_inj (bool true) (bool false) r q e = absurd (apart refl (tail_of e))
  print_inj (bool true) (number t') r q e = absurd (apart refl e)
  print_inj (bool true) (string t') r q e = absurd (apart refl e)
  print_inj (bool true) (array vs') r q e = absurd (apart refl e)
  print_inj (bool true) (object fs') r q e = absurd (apart refl e)
  print_inj (bool false) null r q e = absurd (apart refl e)
  print_inj (bool false) (bool true) r q e = absurd (apart refl (tail_of e))
  print_inj (bool false) (bool false) r q e = (refl, tail_of (tail_of e))
  print_inj (bool false) (number t') r q e = absurd (apart refl e)
  print_inj (bool false) (string t') r q e = absurd (apart refl e)
  print_inj (bool false) (array vs') r q e = absurd (apart refl e)
  print_inj (bool false) (object fs') r q e = absurd (apart refl e)
  print_inj (number t) null r q e = absurd (apart refl e)
  print_inj (number t) (bool true) r q e = absurd (apart refl e)
  print_inj (number t) (bool false) r q e = absurd (apart refl e)
  print_inj (number t) (number t') r q e =
      let (same, rest) = print_text_inj t t' r q (tail_of e) in (ap number same, rest)
  print_inj (number t) (string t') r q e = absurd (apart refl e)
  print_inj (number t) (array vs') r q e = absurd (apart refl e)
  print_inj (number t) (object fs') r q e = absurd (apart refl e)
  print_inj (string t) null r q e = absurd (apart refl e)
  print_inj (string t) (bool true) r q e = absurd (apart refl e)
  print_inj (string t) (bool false) r q e = absurd (apart refl e)
  print_inj (string t) (number t') r q e = absurd (apart refl e)
  print_inj (string t) (string t') r q e =
      let (same, rest) = print_text_inj t t' r q (tail_of e) in (ap string same, rest)
  print_inj (string t) (array vs') r q e = absurd (apart refl e)
  print_inj (string t) (object fs') r q e = absurd (apart refl e)
  print_inj (array vs) null r q e = absurd (apart refl e)
  print_inj (array vs) (bool true) r q e = absurd (apart refl e)
  print_inj (array vs) (bool false) r q e = absurd (apart refl e)
  print_inj (array vs) (number t') r q e = absurd (apart refl e)
  print_inj (array vs) (string t') r q e = absurd (apart refl e)
  print_inj (array vs) (array vs') r q e =
      let (same, rest) = print_items_inj vs vs' r q (tail_of e) in (ap array same, rest)
  print_inj (array vs) (object fs') r q e = absurd (apart refl e)
  print_inj (object fs) null r q e = absurd (apart refl e)
  print_inj (object fs) (bool true) r q e = absurd (apart refl e)
  print_inj (object fs) (bool false) r q e = absurd (apart refl e)
  print_inj (object fs) (number t') r q e = absurd (apart refl e)
  print_inj (object fs) (string t') r q e = absurd (apart refl e)
  print_inj (object fs) (array vs') r q e = absurd (apart refl e)
  print_inj (object fs) (object fs') r q e =
      let (same, rest) = print_fields_inj fs fs' r q (tail_of e) in (ap object same, rest)

  print_items_inj :
      (vs ws : Items) (r q : String) → print_items vs r ≡ print_items ws q → (vs ≡ ws) × (r ≡ q)
  print_items_inj nil nil r q e = (refl, tail_of e)
  print_items_inj nil (cons w ws) r q e = absurd (apart refl e)
  print_items_inj (cons v vs) nil r q e = absurd (apart refl e)
  print_items_inj (cons v vs) (cons w ws) r q e =
      let (one, more) = print_inj v w (print_items vs r) (print_items ws q) (tail_of e) in
      let (same, rest) = print_items_inj vs ws r q more in (cc, rest)

  print_fields_inj :
      (fs gs : Fields) (r q : String) → print_fields fs r ≡ print_fields gs q → (fs ≡ gs) × (r ≡ q)
  print_fields_inj end end r q e = (refl, tail_of e)
  print_fields_inj end (field k v gs) r q e = absurd (apart refl e)
  print_fields_inj (field k v fs) end r q e = absurd (apart refl e)
  print_fields_inj (field k v fs) (field j w gs) r q e =
      let (key, after) =
        print_text_inj k j (print v (print_fields fs r)) (print w (print_fields gs q))
          (tail_of e) in
      let (one, more) = print_inj v w (print_fields fs r) (print_fields gs q) after in
      let (same, rest) = print_fields_inj fs gs r q more in (cc, rest)

abbrev pub exact : Codec
exact = record codec { encode_value = λ v. print v ""; hash_hex = λ t. t }

pub exact-CollisionFree : CollisionFree exact
exact-CollisionFree v w e = (print_inj v w "" "" e).0
