-- ===== src/Cache/Policy.antt =====
-- The TTL of a response: src/cache/policy.rs.
use poolbeg.Prelude.{
  ℕ, ◌≡◌, refl, Bool, true, false, ◌&&◌, ◌||◌, List, [], ◌∷◌, ◌++◌, Option, none, some, String,
  str_eq, if◌then◌else◌, any, All,
}
use poolbeg.Config.{
  CachePolicy, Finality, finalized, unfinalized, TtlValue, never, forever, duration,
}
use poolbeg.Config.Duration.{from_secs}

unfoldable pub matches_method : List String → String → Bool
matches_method patterns method = any (λ p. str_eq p "*" || str_eq p method) patterns

-- `==` on `Finality`.
abbrev same_finality : Finality → Finality → Bool
same_finality Finality.finalized Finality.finalized = true
same_finality Finality.unfinalized Finality.unfinalized = true
same_finality Finality.any Finality.any = true
same_finality _ _ = false

unfoldable pub matches_finality : Finality → Finality → Bool
matches_finality policy_finality request_finality =
    same_finality policy_finality Finality.any || same_finality policy_finality request_finality

abbrev pub request_finality : Bool → Finality
request_finality is_unfinalized = if is_unfinalized then unfinalized else finalized

unfoldable pub policy_matches : CachePolicy → String → Bool → Bool
unfolding matches_method matches_finality
policy_matches policy method is_unfinalized =
    matches_method policy.methods method
    && matches_finality policy.finality (request_finality is_unfinalized)

-- `None` is "do not cache", and a TTL of zero "no expiry".
unfoldable pub policy_ttl : TtlValue → Option ℕ
policy_ttl never = none
policy_ttl forever = some (from_secs 0)
policy_ttl (duration d) = some d

unfoldable pub resolve_ttl : List CachePolicy → String → Bool → Option ℕ
resolve_ttl [] method is_unfinalized = some (if is_unfinalized then from_secs 3 else from_secs 3600)
resolve_ttl (policy ∷ policies) method is_unfinalized =
    let rest = resolve_ttl policies method is_unfinalized in
    if policy_matches policy method is_unfinalized then policy_ttl policy.ttl else rest

-- The first policy that matches decides, whatever stands behind it.
pub resolve_ttl-first :
    (before after : List CachePolicy) (policy : CachePolicy) (method : String) (unfin : Bool)
    → All (λ p. policy_matches p method unfin ≡ false) before
    → policy_matches policy method unfin ≡ true
    → resolve_ttl (before ++ policy ∷ after) method unfin ≡ policy_ttl policy.ttl
unfolding resolve_ttl
resolve_ttl-first [] after policy method unfin h m = rw m
resolve_ttl-first (p ∷ before) after policy method unfin h m =
    rw h.0 (resolve_ttl-first before after policy method unfin h.1 m)

-- If no policy matches, the default holds: three seconds, or an hour for a finalized request.
pub resolve_ttl-default :
    (policies : List CachePolicy) (method : String) (unfin : Bool)
    → All (λ p. policy_matches p method unfin ≡ false) policies
    → resolve_ttl policies method unfin ≡ some (if unfin then from_secs 3 else from_secs 3600)
unfolding resolve_ttl
resolve_ttl-default [] method unfin h = refl
resolve_ttl-default (p ∷ ps) method unfin h = rw h.0 (resolve_ttl-default ps method unfin h.1)
