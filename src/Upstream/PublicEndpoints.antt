-- ===== src/Upstream/PublicEndpoints.antt =====
-- Public endpoints for the chains that ask for them: src/upstream/public_endpoints.rs. The download and
-- the JSON reader are third-party code: `Fetched` is what they yield. The registry maps the text of a
-- chain's number to its endpoints.
pub mod Injected
use Prim.Native.String
use poolbeg.Prelude.{
  ℕ, zero, suc, Bool, true, false, List, [], ◌∷◌, ◌++◌, Option, none, some, String, str_eq, any,
  if◌then◌else◌, lookup, to_decimal, map,
}
use poolbeg.Config.{ChainConfig, UpstreamConfig, fallback}

-- The client cannot be built or the request fails; the status is no success; the body cannot be read.
pub data Fetched : Type 0 where
  unreachable bad_status unreadable : Fetched
  registry : List (String × List String) → Fetched

abbrev default_public_max_rps : ℕ
default_public_max_rps = 10

unfoldable pub public_upstream : ℕ → ℕ → String → UpstreamConfig
public_upstream chain_id i url = record {
  id =
      String.◌++◌ "auto-public-"
        (String.◌++◌ (to_decimal chain_id) (String.◌++◌ "-" (to_decimal i)));
  role = fallback;
  http_url = url;
  ws_url = none;
  max_rps = default_public_max_rps;
}

abbrev pub has_url : List UpstreamConfig → String → Bool
has_url us url = any (λ u. str_eq u.http_url url) us

-- The loop over the endpoints, from index `i` on: the upstreams that are pushed. `existing` are the
-- chain's own, as they were before the loop.
unfoldable pub added : ℕ → List UpstreamConfig → ℕ → List String → List UpstreamConfig
added chain_id existing i [] = []
added chain_id existing i (url ∷ urls) =
    let rest = added chain_id existing (suc i) urls in
    if has_url existing url then rest else public_upstream chain_id i url ∷ rest

unfoldable pub inject : List (String × List String) → ChainConfig → ChainConfig
inject chains_of chain =
    if chain.auto_public
    then elim (lookup (to_decimal chain.chain_id) chains_of) [
      | none ↦ chain
      | some endpoints ↦ record chain {
        upstreams = chain.upstreams ++ added chain.chain_id chain.upstreams 0 endpoints;
      }
    ]
    else chain

-- `none` is an error, with which the program ends.
unfoldable pub resolve_auto_public : Fetched → List ChainConfig → Option (List ChainConfig)
resolve_auto_public fetched chains =
    if any (λ c. c.auto_public) chains
    then elim fetched [ registry chains_of ↦ some (map (inject chains_of) chains) | _ ↦ none ]
    else some chains
