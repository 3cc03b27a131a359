-- ===== src/Middleware/Auth/Query.antt =====
-- A query that is written from pairs is read back.
use Prim.Native.Char.{Char}
use Prim.Native.String
use text.Mathlib.TextLemmas.{cons-append, nil-append}
use poolbeg.Prelude.{◌≡◌, refl, ap, ◌∙◌, List, [], ◌∷◌, some, String, filter_map, lookup, map, All}
use poolbeg.Prelude.Strings.Lacks.{Lacks, code_self, Lacks-append}
use poolbeg.Middleware.Auth.{split, split_once, query_key}

abbrev pub pair_text : String × String → String
pair_text p = String.◌++◌ p.0 (String.◌∷◌ "=" p.1)

-- The text of a query.
abbrev pub query_text : List (String × String) → String
query_text [] = String.[]
query_text (p ∷ []) = pair_text p
query_text (p ∷ q ∷ ps) = String.◌++◌ (pair_text p) (String.◌∷◌ "&" (query_text (q ∷ ps)))

split-Lacks : (c : Char) (s : String) → Lacks c s → split c s ≡ s ∷ []
unfolding split
split-Lacks c String.[] h = refl
split-Lacks c (String.◌∷◌ x s) (ne, h) = rw ne (rw (split-Lacks c s h))

split-append :
    (c : Char) (s rest : String)
    → Lacks c s
    → split c (String.◌++◌ s (String.◌∷◌ c rest)) ≡ s ∷ split c rest
unfolding split
split-append c String.[] rest h = ap (split c) (nil-append (String.◌∷◌ c rest)) ∙ (rw (code_self c))
split-append c (String.◌∷◌ x s) rest (ne, h) =
    ap (split c) (cons-append x s (String.◌∷◌ c rest)) ∙ (rw ne (rw (split-append c s rest h)))

split_once-append :
    (c : Char) (s rest : String)
    → Lacks c s
    → split_once c (String.◌++◌ s (String.◌∷◌ c rest)) ≡ some (s, rest)
unfolding split_once
split_once-append c String.[] rest h =
    ap (split_once c) (nil-append (String.◌∷◌ c rest)) ∙ (rw (code_self c))
split_once-append c (String.◌∷◌ x s) rest (ne, h) =
    ap (split_once c) (cons-append x s (String.◌∷◌ c rest))
    ∙ (rw ne (rw (split_once-append c s rest h)))

-- No name has one of the two signs, and no value an ampersand.
abbrev pub IsPlain : String × String → Type 0
IsPlain p = Lacks "=" p.0 × Lacks "&" p.0 × Lacks "&" p.1

pair-Lacks : (p : String × String) → IsPlain p → Lacks "&" (pair_text p)
pair-Lacks p (_, h, k) = Lacks-append "&" p.0 (String.◌∷◌ "=" p.1) h (refl, k)

split-query_text :
    (p : String × String) (ps : List (String × String))
    → All IsPlain (p ∷ ps)
    → split "&" (query_text (p ∷ ps)) ≡ map pair_text (p ∷ ps)
split-query_text p [] (h, _) = split-Lacks "&" (pair_text p) (pair-Lacks p h)
split-query_text p (q ∷ ps) (h, hs) =
    split-append "&" (pair_text p) (query_text (q ∷ ps)) (pair-Lacks p h)
    ∙ ap (λ ts. pair_text p ∷ ts) (split-query_text q ps hs)

pairs_read :
    (ps : List (String × String))
    → All IsPlain ps
    → filter_map (split_once "=") (map pair_text ps) ≡ ps
pairs_read [] h = refl
pairs_read (p ∷ ps) ((e, _, _), hs) =
    rw (split_once-append "=" p.0 p.1 e, filter_map) (ap (λ qs. p ∷ qs) (pairs_read ps hs))

-- From a query that is written from pairs, none of whose names has `=` or `&` and none of whose values
-- has `&`, the key is the value of the first pair with the name `key`.
pub query_key-query_text :
    (ps : List (String × String)) → All IsPlain ps → query_key (query_text ps) ≡ lookup "key" ps
unfolding query_key split split_once lookup
query_key-query_text [] h = refl
query_key-query_text (p ∷ ps) h =
    ap (λ ts. lookup "key" (filter_map (split_once "=") ts)) (split-query_text p ps h)
    ∙ ap (lookup "key") (pairs_read (p ∷ ps) h)
