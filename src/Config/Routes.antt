-- ===== src/Config/Routes.antt =====
-- `Config::validate` and `Config::route_map` of src/config.rs.
use poolbeg.Prelude.{
  ℕ, zero, suc, ◌+◌, ◌≡◌, refl, ◌≢◌, ◌⊎◌, Bool, true, false, not, ◌||◌, List, [], ◌∷◌, Option, none,
  some, String, str_eq, eq_iff, eq_refl, starts_with, arith, if◌then◌else◌, Bool-cases, get_elem?,
  lookup, insert, lookup-insert, All, ◌↔◌, ap, subst, ◌∙◌,
}
use package.poolbeg.Config.{ChainConfig}

pub data ConfigError : Type 0 where
  no_chains : ConfigError
  no_upstream bad_route : String → ConfigError
  duplicate_route : (route existing name : String) → ConfigError

abbrev pub is_empty {ℓ} : {A : Type ℓ} → List A → Bool
is_empty [] = true
is_empty (x ∷ xs) = false

-- The loop of `validate`; `routes` maps each route seen so far to its chain. `none` is `Ok(())`.
validate_from : List (String × String) → List ChainConfig → Option ConfigError
validate_from routes [] = none
validate_from routes (chain ∷ chains) =
    let rest = validate_from (insert chain.route chain.name routes) chains in
    if not (not (is_empty chain.upstreams) || chain.auto_public)
    then some (no_upstream chain.name)
    else if not (starts_with chain.route "/")
    then some (bad_route chain.name)
    else elim (lookup chain.route routes) [
      | some existing ↦ some (duplicate_route chain.route existing chain.name)
      | none ↦ rest
    ]

unfoldable pub validate : List ChainConfig → Option ConfigError
unfolding validate_from
validate chains = if is_empty chains then some no_chains else validate_from [] chains

route_map_from : ℕ → List ChainConfig → List (String × ℕ) → List (String × ℕ)
route_map_from i [] m = m
route_map_from i (c ∷ cs) m = route_map_from (suc i) cs (insert c.route i m)

-- A later chain with the same route would replace an earlier one.
unfoldable pub route_map : List ChainConfig → List (String × ℕ)
unfolding route_map_from
route_map chains = route_map_from 0 chains []

-- A chain on its own is right.
abbrev pub IsUsable : ChainConfig → Type 0
IsUsable c =
    ((not (is_empty c.upstreams) || c.auto_public) ≡ true) × (starts_with c.route "/" ≡ true)

-- No two chains have one route.
abbrev pub Distinct : List ChainConfig → Type 0
Distinct [] = Unit {0}
Distinct (c ∷ cs) = All (λ d. str_eq c.route d.route ≡ false) cs × Distinct cs

-- The routes of the chains are not yet in the map.
abbrev Fresh : {V : Type 0} → List (String × V) → List ChainConfig → Type 0
Fresh m cs = All (λ d. lookup d.route m ≡ none) cs

Fresh-insert :
    {V : Type 0} (r : String) (v : V) (m : List (String × V)) (cs : List ChainConfig)
    → All (λ d. str_eq r d.route ≡ false) cs
    → Fresh m cs
    → Fresh (insert r v m) cs
Fresh-insert r v m [] a f = tt
Fresh-insert r v m (c ∷ cs) a f =
    (rw (lookup-insert r c.route v m) (rw a.0 f.0), Fresh-insert r v m cs a.1 f.1)

Fresh-insert_inv :
    {V : Type 0} (r : String) (v : V) (m : List (String × V)) (cs : List ChainConfig)
    → Fresh (insert r v m) cs
    → All (λ d. str_eq r d.route ≡ false) cs × Fresh m cs
Fresh-insert_inv r v m [] f = (tt, tt)
Fresh-insert_inv r v m (c ∷ cs) f =
    let (a, g) = Fresh-insert_inv r v m cs f.1 in
    let (p, q) = here (Bool-cases (str_eq r c.route)) (lookup-insert r c.route v m) in
    ((p, a), (q, g))
  where
    here :
        (str_eq r c.route ≡ true) ⊎ (str_eq r c.route ≡ false)
        → lookup c.route (insert r v m) ≡ (if str_eq r c.route then some v else lookup c.route m)
        → (str_eq r c.route ≡ false) × (lookup c.route m ≡ none)
    here b e = ground arith

-- One round of the loop passes exactly if the chain is right and its route is new.
validate_step :
    (routes : List (String × String)) (c : ChainConfig) (cs : List ChainConfig)
    → (validate_from routes (c ∷ cs) ≡ none) ↔ (
        IsUsable c
        × (lookup c.route routes ≡ none)
        × (validate_from (insert c.route c.name routes) cs ≡ none))
unfolding validate_from
validate_step routes c cs = (λ h. ground arith, λ h. ground arith)

validate_from_sound :
    (routes : List (String × String)) (cs : List ChainConfig)
    → validate_from routes cs ≡ none
    → All IsUsable cs × Distinct cs × Fresh routes cs
validate_from_sound routes [] h = (tt, tt, tt)
validate_from_sound routes (c ∷ cs) h =
    let (u, free, rest) = (validate_step routes c cs).0 h in
    let (us, ds, fs) = validate_from_sound (insert c.route c.name routes) cs rest in
    let (ne, old) = Fresh-insert_inv c.route c.name routes cs fs in ((u, us), (ne, ds), (free, old))

validate_from_complete :
    (routes : List (String × String)) (cs : List ChainConfig)
    → All IsUsable cs
    → Distinct cs
    → Fresh routes cs
    → validate_from routes cs ≡ none
unfolding validate_from
validate_from_complete routes [] u d f = refl
validate_from_complete routes (c ∷ cs) u d f =
    unfold validate_from in
    (validate_step routes c cs).1 (
      u.0,
      f.0,
      validate_from_complete (insert c.route c.name routes) cs u.1 d.1
          (Fresh-insert c.route c.name routes cs d.0 f.1),
    )

Fresh-nil : (cs : List ChainConfig) → Fresh {V = String} [] cs
unfolding lookup
Fresh-nil [] = tt
Fresh-nil (c ∷ cs) = (refl, Fresh-nil cs)

-- `validate` accepts exactly the configurations with at least one chain, in which every chain has
-- an upstream or takes public ones and has a route that begins with a slash, and no two chains have
-- one route.
pub validate_iff :
    (chains : List ChainConfig)
    → (validate chains ≡ none) ↔ ((chains ≢ []) × All IsUsable chains × Distinct chains)
unfolding validate
validate_iff [] = (λ h. absurd (cc), λ h. absurd (h.0 refl))
validate_iff (c ∷ cs) = (
  λ h. let (u, d, f) = validate_from_sound [] (c ∷ cs) h in ((λ e. cc), u, d),
  λ h. validate_from_complete [] (c ∷ cs) h.1 h.2 (Fresh-nil (c ∷ cs)),
)

-- The rest of the loop leaves a route alone that no later chain has.
route_map_from-keep :
    (i : ℕ) (cs : List ChainConfig) (m : List (String × ℕ)) (r : String)
    → All (λ d. str_eq r d.route ≡ false) cs
    → lookup r (route_map_from i cs m) ≡ lookup r m
unfolding route_map_from
route_map_from-keep i [] m r h = refl
route_map_from-keep i (c ∷ cs) m r h =
    route_map_from-keep (suc i) cs (insert c.route i m) r h.1
    ∙ rw (lookup-insert c.route r i m) (ground (arith, eq_iff r c.route, eq_iff c.route r))

route_map_from-hit :
    (i j : ℕ) (cs : List ChainConfig) (m : List (String × ℕ)) (c : ChainConfig)
    → Distinct cs
    → get_elem? cs j ≡ some c
    → lookup c.route (route_map_from i cs m) ≡ some (i + j)
unfolding route_map_from
route_map_from-hit i j [] m c d h = absurd (cc)
route_map_from-hit i zero (b ∷ cs) m c d h =
    let e : b ≡ c = ground arith in
    subst (λ x. lookup x.route (route_map_from (suc i) cs (insert b.route i m)) ≡ some (i + 0)) e
      (route_map_from-keep (suc i) cs (insert b.route i m) b.route d.0
        ∙ rw (lookup-insert b.route b.route i m, eq_refl) (ap some (omega arith)))
route_map_from-hit i (suc j) (b ∷ cs) m c d h =
    route_map_from-hit (suc i) j cs (insert b.route i m) c d.1 h ∙ ap some (omega arith)

-- In an accepted configuration the route map sends each chain's route to that chain's index.
pub route_map-validate :
    (chains : List ChainConfig) (i : ℕ) (c : ChainConfig)
    → validate chains ≡ none
    → get_elem? chains i ≡ some c
    → lookup c.route (route_map chains) ≡ some i
unfolding route_map
route_map-validate chains i c ok h =
    route_map_from-hit 0 i chains [] c ((validate_iff chains).0 ok).2 h ∙ ap some (omega arith)
