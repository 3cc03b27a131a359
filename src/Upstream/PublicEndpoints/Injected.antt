-- ===== src/Upstream/PublicEndpoints/Injected.antt =====
-- What the public endpoints add to a configuration, and that it stays valid.
use poolbeg.Prelude.{
  ℕ, suc, ◌≡◌, ◌≢◌, refl, sym, ap, subst, ◌∙◌, Bool, true, false, not, ◌||◌, List, [], ◌∷◌, ◌++◌,
  none, some, String, str_eq, any, lookup, to_decimal, map, All, Bool-cases, Option-cases, inl, inr,
  arith,
}
use poolbeg.Config.{ChainConfig, UpstreamConfig, fallback}
use poolbeg.Config.Routes.{validate, is_empty, IsUsable, Distinct, validate_iff}
use poolbeg.Upstream.PublicEndpoints.{
  Fetched, unreachable, bad_status, unreadable, registry, public_upstream, has_url, added, inject,
  resolve_auto_public,
}

-- A fallback upstream at an address that the chain did not have.
abbrev pub IsNew : List UpstreamConfig → UpstreamConfig → Type 0
IsNew existing u = (u.role ≡ fallback) × (has_url existing u.http_url ≡ false)

added-IsNew :
    (n : ℕ) (existing : List UpstreamConfig) (i : ℕ) (urls : List String)
    → All (IsNew existing) (added n existing i urls)
unfolding added public_upstream
added-IsNew n existing i [] = tt
added-IsNew n existing i (url ∷ urls) = elim (Bool-cases (has_url existing url)) [
  | inl e ↦ rw e (added-IsNew n existing (suc i) urls)
  | inr e ↦ rw e ((refl, e), added-IsNew n existing (suc i) urls)
]

-- The second chain is the first with more upstreams behind its own, each of them new.
abbrev pub Extends : ChainConfig → ChainConfig → Type 0
Extends c d =
    (extra : List UpstreamConfig) × (d ≡ record c { upstreams = c.upstreams ++ extra })
    × All (IsNew c.upstreams) extra

append_nil : {A : Type 0} (xs : List A) → xs ++ [] ≡ xs
append_nil [] = refl
append_nil (x ∷ xs) = ap (λ ys. x ∷ ys) (append_nil xs)

unchanged : (c : ChainConfig) → Extends c c
unchanged c = ([], ap (λ us. record c { upstreams = us }) (sym (append_nil c.upstreams)), tt)

-- The three ways through one chain.
module _ (chains_of : List (String × List String)) (c : ChainConfig) where
  inject_off : c.auto_public ≡ false → inject chains_of c ≡ c
  unfolding inject
  inject_off e = ground arith

  inject_missing :
      c.auto_public ≡ true
      → lookup (to_decimal c.chain_id) chains_of ≡ none
      → inject chains_of c ≡ c
  unfolding inject
  inject_missing e g = ground arith

  inject_found :
      (endpoints : List String)
      → c.auto_public ≡ true
      → lookup (to_decimal c.chain_id) chains_of ≡ some endpoints
      → inject chains_of c
        ≡ record c { upstreams = c.upstreams ++ added c.chain_id c.upstreams 0 endpoints }
  unfolding inject
  inject_found endpoints e g = ground arith

  inject-Extends : Extends c (inject chains_of c)
  inject-Extends = elim (Bool-cases c.auto_public) [
    | inr e ↦ subst (Extends c) (sym (inject_off e)) (unchanged c)
    | inl e ↦ elim (Option-cases (lookup (to_decimal c.chain_id) chains_of)) [
      | inl g ↦ subst (Extends c) (sym (inject_missing e g)) (unchanged c)
      | inr (endpoints, g) ↦ (
        added c.chain_id c.upstreams 0 endpoints,
        inject_found endpoints e g,
        added-IsNew c.chain_id c.upstreams 0 endpoints,
      )
    ]
  ]

-- Chain by chain.
abbrev pub Extended : List ChainConfig → List ChainConfig → Type 0
Extended [] [] = Unit {0}
Extended (c ∷ cs) (d ∷ ds) = Extends c d × Extended cs ds
Extended _ _ = ⊥

map-Extended :
    (chains_of : List (String × List String)) (cs : List ChainConfig)
    → Extended cs (map (inject chains_of) cs)
map-Extended chains_of [] = tt
map-Extended chains_of (c ∷ cs) = (inject-Extends chains_of c, map-Extended chains_of cs)

all_unchanged : (cs : List ChainConfig) → Extended cs cs
all_unchanged [] = tt
all_unchanged (c ∷ cs) = (unchanged c, all_unchanged cs)

-- Whatever was fetched, a configuration that comes out has the chains of the one that went in, each with
-- its own upstreams first, and behind them only fallback upstreams at addresses that it did not have.
pub resolve_auto_public-Extended :
    (fetched : Fetched) (chains out : List ChainConfig)
    → resolve_auto_public fetched chains ≡ some out
    → Extended chains out
unfolding resolve_auto_public
resolve_auto_public-Extended fetched chains out e =
    elim (Bool-cases (any (λ c. c.auto_public) chains)) [
      | inr none_asks ↦
          let same : chains ≡ out = ground arith in
          subst (Extended chains) same (all_unchanged chains)
      | inl asks ↦ downloaded fetched asks e
    ]
  where
    downloaded :
        (f : Fetched)
        → any (λ c. c.auto_public) chains ≡ true
        → resolve_auto_public f chains ≡ some out
        → Extended chains out
    downloaded (registry chains_of) asks e =
        let same : map (inject chains_of) chains ≡ out = ground arith in
        subst (Extended chains) same (map-Extended chains_of chains)
    downloaded unreachable asks e = absurd (ground arith)
    downloaded bad_status asks e = absurd (ground arith)
    downloaded unreadable asks e = absurd (ground arith)

is_empty-append :
    (us vs : List UpstreamConfig) (auto : Bool)
    → (not (is_empty us) || auto) ≡ true
    → (not (is_empty (us ++ vs)) || auto) ≡ true
is_empty-append [] [] auto h = h
is_empty-append [] (v ∷ vs) auto h = refl
is_empty-append (u ∷ us) vs auto h = refl

Extends-IsUsable : (c d : ChainConfig) → Extends c d → IsUsable c → IsUsable d
Extends-IsUsable c d (extra, e, _) (u, s) =
    subst IsUsable (sym e) (is_empty-append c.upstreams extra c.auto_public u, s)

Extends-route : (c d : ChainConfig) → Extends c d → d.route ≡ c.route
Extends-route c d (extra, e, _) = ap (λ x. x.route) e

Extended-IsUsable : (cs ds : List ChainConfig) → Extended cs ds → All IsUsable cs → All IsUsable ds
Extended-IsUsable [] [] h u = tt
Extended-IsUsable [] (d ∷ ds) h u = elim h [ ]
Extended-IsUsable (c ∷ cs) [] h u = elim h [ ]
Extended-IsUsable (c ∷ cs) (d ∷ ds) (e, h) (u, us) =
    (Extends-IsUsable c d e u, Extended-IsUsable cs ds h us)

Extended-apart :
    (r : String) (cs ds : List ChainConfig)
    → Extended cs ds
    → All (λ x. str_eq r x.route ≡ false) cs
    → All (λ x. str_eq r x.route ≡ false) ds
Extended-apart r [] [] h a = tt
Extended-apart r [] (d ∷ ds) h a = elim h [ ]
Extended-apart r (c ∷ cs) [] h a = elim h [ ]
Extended-apart r (c ∷ cs) (d ∷ ds) (e, h) (a, as') =
    (ap (str_eq r) (Extends-route c d e) ∙ a, Extended-apart r cs ds h as')

Extended-Distinct : (cs ds : List ChainConfig) → Extended cs ds → Distinct cs → Distinct ds
Extended-Distinct [] [] h u = tt
Extended-Distinct [] (d ∷ ds) h u = elim h [ ]
Extended-Distinct (c ∷ cs) [] h u = elim h [ ]
Extended-Distinct (c ∷ cs) (d ∷ ds) (e, h) (a, u) = (
  subst (λ r. All (λ x. str_eq r x.route ≡ false) ds) (sym (Extends-route c d e))
      (Extended-apart c.route cs ds h a),
  Extended-Distinct cs ds h u,
)

Extended-nonempty : (cs ds : List ChainConfig) → Extended cs ds → cs ≢ [] → ds ≢ []
Extended-nonempty [] ds h ne = absurd (ne refl)
Extended-nonempty (c ∷ cs) [] h ne = elim h [ ]
Extended-nonempty (c ∷ cs) (d ∷ ds) h ne = λ e. cc

-- A configuration that was accepted before the public endpoints were added is acceptable after it.
pub validate-resolve_auto_public :
    (fetched : Fetched) (chains out : List ChainConfig)
    → validate chains ≡ none
    → resolve_auto_public fetched chains ≡ some out
    → validate out ≡ none
validate-resolve_auto_public fetched chains out ok e =
    let h = resolve_auto_public-Extended fetched chains out e in
    let (ne, usable, apart) = (validate_iff chains).0 ok in
    (validate_iff out).1 (
      Extended-nonempty chains out h ne,
      Extended-IsUsable chains out h usable,
      Extended-Distinct chains out h apart,
    )
