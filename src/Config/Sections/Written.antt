-- ===== src/Config/Sections/Written.antt =====
-- Policies that are written out and read again, and the chains of a configuration that is read.
use poolbeg.Prelude.{◌≡◌, refl, List, [], ◌∷◌, some, map, All}
use poolbeg.Config.{CachePolicy}
use poolbeg.Config.Duration.{serialize_ttl}
use poolbeg.Config.Duration.RoundTrip.{Fits, whole_seconds, deserialize_ttl-serialize_ttl}
use poolbeg.Config.Sections.{PolicySection, each, read_policy}

-- The `Serialize` instance of a policy.
unfoldable pub write_policy : CachePolicy → PolicySection
write_policy p = record {
  methods = p.methods;
  finality = some p.finality;
  ttl = serialize_ttl p.ttl;
}

abbrev pub rounded : CachePolicy → CachePolicy
rounded p = record p { ttl = whole_seconds p.ttl }

read_policy-write_policy :
    (p : CachePolicy) → Fits p.ttl → read_policy (write_policy p) ≡ some (rounded p)
unfolding read_policy write_policy
read_policy-write_policy p h = rw (deserialize_ttl-serialize_ttl p.ttl h)

-- A list of policies with TTLs below 2 ^ 64 seconds reads back in order as it was written, each TTL cut to
-- whole seconds.
pub each-write_policy :
    (ps : List CachePolicy)
    → All (λ p. Fits p.ttl) ps
    → each read_policy (map write_policy ps) ≡ some (map rounded ps)
unfolding each
each-write_policy [] h = refl
each-write_policy (p ∷ ps) (h, hs) =
    rw (read_policy-write_policy p h) (rw (each-write_policy ps hs))
