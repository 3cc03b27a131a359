-- ===== src/Rpc/Batch/Duplicates.antt =====
-- The map of the duplicates points to requests that are none.
use poolbeg.Prelude.{
  ℕ, zero, suc, ◌≡◌, refl, subst, sym, ap, ◌≢◌, List, [], ◌∷◌, ◌++◌, Option, none, some, String,
  str_eq, get_elem?, length, lookup, insert, lookup-insert, Option-cases, Bool-cases, inl, inr,
  arith,
}
use native.Mathlib.Decide.{ℕ_discrete}
use poolbeg.Rpc.Types.{JsonRpcRequest}
use poolbeg.Rpc.Batch.{first_pass}

-- Every entry of the map points to a request that is no duplicate.
abbrev pub Leads : List (Option ℕ) → Type 0
Leads ds = (k j : ℕ) → get_elem? ds k ≡ some (some j) → get_elem? ds j ≡ some none

get_elem?-append :
    {A : Type 0} (xs ys : List A) (i : ℕ) {a : A}
    → get_elem? xs i ≡ some a
    → get_elem? (xs ++ ys) i ≡ some a
get_elem?-append [] ys i e = absurd (cc)
get_elem?-append (x ∷ xs) ys zero e = e
get_elem?-append (x ∷ xs) ys (suc i) e = get_elem?-append xs ys i e

get_elem?-length :
    {A : Type 0} (xs : List A) (y : A) → get_elem? (xs ++ (y ∷ [])) (length xs) ≡ some y
get_elem?-length [] y = refl
get_elem?-length (x ∷ xs) y = get_elem?-length xs y

get_elem?-snoc :
    {A : Type 0} (xs : List A) (y : A) (i : ℕ) {a : A}
    → get_elem? (xs ++ (y ∷ [])) i ≡ some a
    → a ≢ y
    → get_elem? xs i ≡ some a
get_elem?-snoc [] y zero e ne = absurd (ne (cc))
get_elem?-snoc [] y (suc i) e ne = absurd (cc)
get_elem?-snoc (x ∷ xs) y zero e ne = e
get_elem?-snoc (x ∷ xs) y (suc i) e ne = get_elem?-snoc xs y i e ne

length-snoc : {A : Type 0} (xs : List A) (y : A) → length (xs ++ (y ∷ [])) ≡ suc (length xs)
length-snoc [] y = refl
length-snoc (x ∷ xs) y = ap suc (length-snoc xs y)

snoc-append :
    {A : Type 0} (xs : List A) (y : A) (ys : List A) → (xs ++ (y ∷ [])) ++ ys ≡ xs ++ (y ∷ ys)
snoc-append [] y ys = refl
snoc-append (x ∷ xs) y ys = ap (λ zs. x ∷ zs) (snoc-append xs y ys)

-- A new entry keeps the map good: none, or one that points to a request that is no duplicate.
Leads-none : (ds : List (Option ℕ)) → Leads ds → Leads (ds ++ (none ∷ []))
Leads-none ds good k j e =
    get_elem?-append ds (none ∷ []) j (good k j (get_elem?-snoc ds none k e (λ h. absurd (cc))))

Leads-some :
    (ds : List (Option ℕ)) (i : ℕ)
    → Leads ds
    → get_elem? ds i ≡ some none
    → Leads (ds ++ (some i ∷ []))
Leads-some ds i good here k j e = elim (ℕ_discrete j i) [
  | yes same ↦ rw same (get_elem?-append ds (some i ∷ []) i here)
  | no other ↦
      get_elem?-append ds (some i ∷ []) j
        (good k j (get_elem?-snoc ds (some i) k e (λ h. other (cc))))
]

append_nil : {A : Type 0} (xs : List A) → xs ++ [] ≡ xs
append_nil [] = refl
append_nil (x ∷ xs) = ap (λ ys. x ∷ ys) (append_nil xs)

pub some_inj : {A : Type 0} {a b : A} → some a ≡ some b → a ≡ b
some_inj e = cc

module _ (dedup_key : JsonRpcRequest → Option String) where
  abbrev Known : List (Option ℕ) → List (String × ℕ) → Type 0
  Known ds seen = (k : String) (j : ℕ) → lookup k seen ≡ some j → get_elem? ds j ≡ some none

  Known-snoc :
      (d : Option ℕ) (ds : List (Option ℕ)) (seen : List (String × ℕ))
      → Known ds seen
      → Known (ds ++ (d ∷ [])) seen
  Known-snoc d ds seen known k j e = get_elem?-append ds (d ∷ []) j (known k j e)

  Known-insert :
      (key : String) (ds : List (Option ℕ)) (seen : List (String × ℕ))
      → Known ds seen
      → Known (ds ++ (none ∷ [])) (insert key (length ds) seen)
  Known-insert key ds seen known k j e = elim (Bool-cases (str_eq key k)) [
    | inl same ↦
        let at : length ds ≡ j = ground (arith, lookup-insert key k (length ds) seen) in
        subst (λ i. get_elem? (ds ++ (none ∷ [])) i ≡ some none) at (get_elem?-length ds none)
    | inr other ↦
        get_elem?-append ds (none ∷ []) j
          (known k j (ground (arith, lookup-insert key k (length ds) seen)))
  ]

  next :
      (d : Option ℕ) (ds : List (Option ℕ)) (reqs : List JsonRpcRequest) (seen : List (String × ℕ))
      → Leads ((ds ++ (d ∷ [])) ++ first_pass dedup_key (length (ds ++ (d ∷ []))) reqs seen)
      → Leads (ds ++ (d ∷ first_pass dedup_key (suc (length ds)) reqs seen))
  next d ds reqs seen h =
      subst Leads (snoc-append ds d (first_pass dedup_key (suc (length ds)) reqs seen)) (
        subst (λ n. Leads ((ds ++ (d ∷ [])) ++ first_pass dedup_key n reqs seen)) (length-snoc ds d)
          h)

  pub first_pass-Leads :
      (reqs : List JsonRpcRequest) (ds : List (Option ℕ)) (seen : List (String × ℕ))
      → Known ds seen
      → Leads ds
      → Leads (ds ++ first_pass dedup_key (length ds) reqs seen)
  unfolding first_pass
  first_pass-Leads [] ds seen known good = subst Leads (sym (append_nil ds)) good
  first_pass-Leads (req ∷ reqs) ds seen known good = elim (Option-cases (dedup_key req)) [
    | inl no_key ↦
        rw (no_key, first_pass)
          (next none ds reqs seen (
            first_pass-Leads reqs (ds ++ (none ∷ [])) seen (Known-snoc none ds seen known)
              (Leads-none ds good)))
    | inr (key, e) ↦ elim (Option-cases (lookup key seen)) [
      | inl new ↦
          rw (e, first_pass)
            (rw new (
              next none ds reqs (insert key (length ds) seen) (
                first_pass-Leads reqs (ds ++ (none ∷ [])) (insert key (length ds) seen)
                  (Known-insert key ds seen known) (Leads-none ds good))))
      | inr (i, old) ↦
          rw (e, first_pass)
            (rw old (
              next (some i) ds reqs seen (
                first_pass-Leads reqs (ds ++ (some i ∷ [])) seen (Known-snoc (some i) ds seen known)
                  (Leads-some ds i good (known key i old)))))
    ]
  ]

pub first_pass-length :
    (dedup_key : JsonRpcRequest → Option String) (i : ℕ) (reqs : List JsonRpcRequest)
    (seen : List (String × ℕ))
    → length (first_pass dedup_key i reqs seen) ≡ length reqs
unfolding first_pass
first_pass-length dedup_key i [] seen = refl
first_pass-length dedup_key i (req ∷ reqs) seen = elim (Option-cases (dedup_key req)) [
  | inl e ↦ rw (e, first_pass) (ap suc (first_pass-length dedup_key (suc i) reqs seen))
  | inr (key, e) ↦ elim (Option-cases (lookup key seen)) [
    | inl g ↦
        rw (e, first_pass)
          (rw g (ap suc (first_pass-length dedup_key (suc i) reqs (insert key i seen))))
    | inr (j, g) ↦
        rw (e, first_pass) (rw g (ap suc (first_pass-length dedup_key (suc i) reqs seen)))
  ]
]
