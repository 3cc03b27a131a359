-- ===== src/Rpc/Types/Tags/Texts.antt =====
-- Block tags as texts, and the parameter that holds one.
use poolbeg.Prelude.{
  ℕ, zero, suc, ◌<◌, ◌≡◌, refl, ap, ◌≢◌, ◌⊎◌, inl, inr, List, [], ◌∷◌, none, some, String, str_eq,
  str_ne_head, arith, length, get_elem?, get_elem?-set_self, get_elem?-set_ne, ◌-◌, ◌||◌,
  to_hex_zero, Option-cases, Bool-cases,
}
use poolbeg.Value.{Value, null, bool, number, string, array, object, to_list, of_list}
use poolbeg.Rpc.Types.{resolve_tag, param_text, set_param, tag_finality}

-- A text that begins with a zero is no tag.
resolve_tag_zero : (l d : ℕ) (s : String) → resolve_tag l d (String.◌∷◌ "0" s) ≡ none
unfolding resolve_tag
resolve_tag_zero l d s = rw (
  str_ne_head "0" "l" s "atest" refl,
  str_ne_head "0" "s" s "afe" refl,
  str_ne_head "0" "f" s "inalized" refl,
  str_ne_head "0" "e" s "arliest" refl,
)

tag_finality_zero : (s : String) → tag_finality (String.◌∷◌ "0" s) ≡ none
unfolding tag_finality
tag_finality_zero s = rw (
  str_ne_head "0" "l" s "atest" refl,
  str_ne_head "0" "p" s "ending" refl,
  str_ne_head "0" "s" s "afe" refl,
  str_ne_head "0" "e" s "arliest" refl,
  str_ne_head "0" "f" s "inalized" refl,
)

-- What a tag is resolved to begins with a zero.
resolve_tag_cases :
    (l d : ℕ) (t : String)
    → (resolve_tag l d t ≡ none) ⊎ ((s : String) × (resolve_tag l d t ≡ some (String.◌∷◌ "0" s)))
unfolding resolve_tag
resolve_tag_cases l d t = elim (Bool-cases (str_eq t "latest")) [
  | inl e ↦ let (s, z) = to_hex_zero l in inr (s, rw (e, z))
  | inr e ↦ elim (Bool-cases (str_eq t "safe" || str_eq t "finalized")) [
    | inl k ↦ let (s, z) = to_hex_zero (l - d) in inr (s, rw (e, k, z))
    | inr k ↦ elim (Bool-cases (str_eq t "earliest")) [
      | inl g ↦ inr ("x0", rw (e, k, g))
      | inr g ↦ inl (rw (e, k, g))
    ]
  ]
]

pub resolve_tag_fix :
    (l d l' d' : ℕ) (t r : String)
    → resolve_tag l d t ≡ some r
    → (resolve_tag l' d' r ≡ none) × (tag_finality r ≡ none)
resolve_tag_fix l d l' d' t r h = elim (resolve_tag_cases l d t) [
  | inl e ↦ absurd (cc)
  | inr (s, e) ↦
      let p : r ≡ String.◌∷◌ "0" s = cc in rw p (resolve_tag_zero l' d' s, tag_finality_zero s)
]

to_list-of_list : (vs : List Value) → to_list (of_list vs) ≡ vs
to_list-of_list [] = refl
to_list-of_list (v ∷ vs) = ap (◌∷◌ v) (to_list-of_list vs)

get_elem?-lt {ℓ} :
    {A : Type ℓ} (xs : List A) (i : ℕ) {a : A} → get_elem? xs i ≡ some a → i < length xs
get_elem?-lt [] i h = cc
get_elem?-lt (x ∷ xs) zero h = omega arith
get_elem?-lt (x ∷ xs) (suc i) h = omega (arith, get_elem?-lt xs i h)

-- After a write the parameter holds the written text, if it held one before.
pub param_text-set_self :
    (idx : ℕ) (params : Value) (t r : String)
    → param_text idx params ≡ some t
    → param_text idx (set_param idx r params) ≡ some r
param_text-set_self idx null t r h = cc
param_text-set_self idx (bool b) t r h = cc
param_text-set_self idx (number n) t r h = cc
param_text-set_self idx (string s) t r h = cc
param_text-set_self idx (object fs) t r h = cc
param_text-set_self idx (array vs) t r h = elim (Option-cases (get_elem? (to_list vs) idx)) [
  | inl e ↦ absurd (ground (arith, e))
  | inr (a, e) ↦
      rw (to_list-of_list, get_elem?-set_self (to_list vs) idx (string r) (get_elem?-lt _ idx e))
]

pub param_text-set_ne :
    (idx j : ℕ) (params : Value) (r : String)
    → idx ≢ j
    → param_text j (set_param idx r params) ≡ param_text j params
param_text-set_ne idx j (array vs) r h =
    rw (to_list-of_list, get_elem?-set_ne (to_list vs) {i = idx} {j = j} (string r) h)
param_text-set_ne idx j _ r h = refl

pub resolve_tag-none :
    (l d l' d' : ℕ) (t : String) → resolve_tag l d t ≡ none → resolve_tag l' d' t ≡ none
unfolding resolve_tag
resolve_tag-none l d l' d' t h = ground arith
