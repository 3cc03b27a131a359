-- ===== src/Tests/FrontTests.antt =====
-- The key of a sample query, and public endpoints for a sample chain.
use poolbeg.Prelude.{◌≡◌, refl, List, [], ◌∷◌, ◌++◌, some, String, true, lookup, to_decimal, emit}
use poolbeg.Config.{ChainConfig}
use poolbeg.Middleware.Auth.{query_key}
use poolbeg.Middleware.Auth.Query.{query_key-query_text}
use poolbeg.Upstream.PublicEndpoints.{
  Fetched, registry, resolve_auto_public, inject, added, public_upstream,
}
use poolbeg.Upstream.PublicEndpoints.Injected.{Extended, resolve_auto_public-Extended}
use poolbeg.Tests.Samples.{chain}

abbrev pairs : List (String × String)
pairs = ("v", "1") ∷ ("key", "s=") ∷ []

query_key-query_text_example : query_key "v=1&key=s=" ≡ some "s="
unfolding lookup
query_key-query_text_example = query_key-query_text pairs (
  ((refl, _), (refl, _), (refl, _)),
  (((refl, (refl, (refl, _))), (refl, (refl, (refl, _))), (refl, (refl, _))), _),
)

abbrev public : ChainConfig
public = record chain { auto_public = true }

abbrev fetched : Fetched
fetched = registry (("1", "http://node" ∷ "http://public" ∷ []) ∷ [])

abbrev with_public : List ChainConfig
with_public =
    record public { upstreams = chain.upstreams ++ (public_upstream 1 1 "http://public" ∷ []) } ∷ []

resolved : resolve_auto_public fetched (public ∷ []) ≡ some with_public
unfolding resolve_auto_public inject added to_decimal emit lookup
resolved = refl

resolve_auto_public-Extended_example : Extended (public ∷ []) with_public
resolve_auto_public-Extended_example =
    resolve_auto_public-Extended fetched (public ∷ []) with_public resolved
