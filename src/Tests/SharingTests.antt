-- ===== src/Tests/SharingTests.antt =====
-- Two tasks that share a request, and a request that comes twice.
use poolbeg.Prelude.{
  ◌∙◌, sym, subst, ℕ, ◌≡◌, ◌≢◌, refl, ◌⊎◌, none, some, String, false, if◌then◌else◌, str_eq, lookup,
}
use poolbeg.Value.{number, string}
use poolbeg.Rpc.Types.{JsonRpcResponse}
use poolbeg.Rpc.Codec.{Codec}
use poolbeg.Rpc.Coalescer.Tasks.{
  cancelled, State, at, at_key, deliver, enter, missed, executing, waiting, sent, finished, Step,
  miss, join, receive, insert, send, Reach, here, next, start,
}
use poolbeg.Rpc.Coalescer.Tasks.Shared.{at-ne, Shared, Reach-Shared}
use poolbeg.Rpc.Coalescer.Tasks.Stuck.{Idle, executes, cancel-blocks}
use poolbeg.Rpc.Coalescer.Tasks.Progress.{waiting-goes_on}
use poolbeg.Rpc.Types.{
  is_method_blocked, is_uncacheable, block_ref_is_unfinalized, block_tag_param_index, tag_finality,
  resolve_tag, resolve_block_tags, scan_tags,
}
use poolbeg.Cache.Policy.{resolve_ttl, policy_matches, policy_ttl}
use poolbeg.Cache.Layer
use poolbeg.Cache.Client
use poolbeg.Middleware.RateLimit
use poolbeg.Upstream.Strategy.{select}
use poolbeg.Upstream.Client.{
  try_acquire_rate_limit, send_request, record_failure, record_http_error, recent,
}
use poolbeg.Upstream.Manager.{
  forwarded, upstream_log_panics, forward_request, try_tiers, try_tier, tier_from, attempts,
  attempt_order, attempt_one, latest_block_number,
}
use poolbeg.Rpc.Handler.{exchange_of, process_single_request, resolved, try_memory_intercept}
use poolbeg.Rpc.Handler.Cached.{renamed, process_single_request-again}
use poolbeg.Tests.Memory.{memory, memory-Laws, memory-Answers}
use poolbeg.Tests.Samples.{codec, answer_of, balance, world, setup, service, manager, empty}

abbrev one_key : ℕ → String
one_key t = "k"

-- Task 0 executes, task 1 waits for it.
abbrev joined : State
joined = record {
  in_flight = at_key start.in_flight "k" (some 0);
  phase = at (at (at start.phase 0 missed) 0 executing) 1 (waiting 0 none);
  executed = start.executed;
}

Reach-joined : Reach codec one_key start joined
Reach-joined = next (next (next here (miss 0 refl refl)) (insert 0 refl)) (join 1 0 refl refl)

abbrev answered : State
answered = record {
  in_flight = joined.in_flight;
  phase = at (λ i. deliver 0 (some "response") (joined.phase i)) 0 (sent (answer_of (number "9")));
  executed = at joined.executed 0 (some (answer_of (number "9")));
}

abbrev received : State
received = enter answered 1 (finished (answer_of (number "7")))

mail : answered.phase 1 ≡ waiting 0 (some "response")
unfolding deliver
mail = refl

Reach-received : Reach codec one_key start received
Reach-received =
    next (next Reach-joined (send 0 (answer_of (number "9")) refl))
      (receive 1 0 "response" (answer_of (number "7")) mail refl)

Reach-Shared_example : Shared codec one_key received.executed 1 (answer_of (number "7"))
Reach-Shared_example =
    Reach-Shared codec one_key received 1 (answer_of (number "7")) Reach-received refl

others_rest : (i : ℕ) → one_key i ≡ one_key 0 → i ≢ 0 → Idle 0 ((executes codec one_key 0).phase i)
others_rest i same ne =
    subst (Idle 0)
      (sym (at-ne (enter start 0 missed).phase 0 executing i ne ∙ at-ne start.phase 0 missed i ne))
      tt

cancel-blocks_example :
    Step codec one_key (executes codec one_key 0) (enter (executes codec one_key 0) 0 cancelled)
    × ((u : State) (v : ℕ) (resp : JsonRpcResponse)
        → Reach codec one_key (enter (executes codec one_key 0) 0 cancelled) u
        → one_key v ≡ one_key 0
        → u.phase v ≢ finished resp)
cancel-blocks_example =
    cancel-blocks codec one_key (executes codec one_key 0) 0 refl refl others_rest

waiting-goes_on_example :
    (joined.phase 0 ≡ executing)
    ⊎ (((resp : JsonRpcResponse) × (joined.phase 0 ≡ sent resp))
        ⊎ Step codec one_key joined (enter joined 1 missed))
waiting-goes_on_example =
    waiting-goes_on codec one_key joined 1 0 Reach-joined refl (λ e. absurd (cc))

abbrev reader : Codec
reader = record codec {
  decode_response = λ t. if str_eq t "response" then some (answer_of (number "9")) else none;
}

not_blocked : is_method_blocked "eth_getBalance" setup.server.blocked_methods ≡ false
unfolding is_method_blocked
not_blocked = refl

not_intercepted : try_memory_intercept setup.chain 1000 "eth_getBalance" (number "1") ≡ none
unfolding try_memory_intercept
not_intercepted = refl

cacheable : is_uncacheable "eth_getBalance" ≡ false
unfolding is_uncacheable
cacheable = refl

missing :
    Layer.get memory reader empty 1
      (resolved memory reader world setup 1000 (balance "0x5" (number "1")))
    ≡ none
unfolding Layer.get Client.get lookup
missing = refl

at_upstream :
    (forward_request
      (exchange_of reader world setup 0
        (resolved memory reader world setup 1000 (balance "0x5" (number "1"))))
      manager).1
    ≡ forwarded (answer_of (number "9"))
unfolding forward_request try_tiers try_tier tier_from attempts attempt_order select attempt_one
    try_acquire_rate_limit RateLimit.try_acquire send_request record_failure record_http_error
    recent upstream_log_panics
at_upstream = refl

kept_for :
    resolve_ttl setup.policies "eth_getBalance" (
      block_ref_is_unfinalized
        (resolved memory reader world setup 1000 (balance "0x5" (number "1")))
        64)
    ≡ some 5000000000
unfolding resolve_ttl policy_matches block_ref_is_unfinalized block_tag_param_index resolved
    resolve_block_tags resolve_tag tag_finality latest_block_number scan_tags policy_ttl
kept_for = refl

process_single_request-again_example :
    process_single_request memory reader world setup
      (process_single_request memory reader world setup service (balance "0x5" (number "1"))).0
      (renamed (balance "0x5" (number "1")) (string "b"))
    ≡ (
      (process_single_request memory reader world setup service (balance "0x5" (number "1"))).0,
      some (answer_of (string "b")),
    )
process_single_request-again_example =
    process_single_request-again memory memory-Laws memory-Answers reader world setup service
      (balance "0x5" (number "1")) (string "b") (answer_of (number "9")) "response" 5000000000
      not_blocked not_intercepted cacheable missing refl at_upstream refl kept_for refl refl
