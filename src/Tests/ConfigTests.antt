-- ===== src/Tests/ConfigTests.antt =====
-- The configuration's checks on sample chains.
use poolbeg.Prelude.{◌≡◌, ◌≢◌, ◌↔◌, refl, [], ◌∷◌, none, some, lookup, All, arith, map}
use poolbeg.Config.Routes.{validate, IsUsable, Distinct, validate_iff}
use poolbeg.Config.{CachePolicy, unfinalized, duration}
use poolbeg.Config.Sections.{each, read_policy}
use poolbeg.Config.Sections.Written.{write_policy, each-write_policy}
use poolbeg.Tests.Samples.{chain}

validate_iff_example :
    (validate (chain ∷ []) ≡ none)
    ↔ ((chain ∷ [] ≢ []) × All IsUsable (chain ∷ []) × Distinct (chain ∷ []))
validate_iff_example = validate_iff (chain ∷ [])

chain_valid : validate (chain ∷ []) ≡ none
unfolding validate lookup
chain_valid = refl

abbrev policy : CachePolicy
policy = record { methods = "*" ∷ []; finality = unfinalized; ttl = duration 1500000000 }

each-write_policy_example :
    each read_policy (map write_policy (policy ∷ []))
    ≡ some (record policy { ttl = duration 1000000000 } ∷ [])
each-write_policy_example = each-write_policy (policy ∷ []) (omega arith, _)
