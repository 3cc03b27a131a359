-- ===== src/Upstream/Manager.antt =====
-- Forwarding a request with failover: src/upstream/manager.rs. The upstreams of a chain are a list, and
-- an `Arc` is the index of its upstream, so that `Arc::ptr_eq` compares indices. `forward_request` is
-- modelled with no other task between its steps: `acquired i` and `answered i` are the times at which
-- upstream `i` is asked for a token and its outcome `net i` is known; each upstream is tried once at
-- most.
pub mod Failover
pub mod Background
use poolbeg.Prelude.{
  ℕ, zero, suc, ◌+◌, ◌≡◌, refl, Bool, true, false, not, ◌&&◌, List, [], ◌∷◌, Option, none, some,
  is_some, String, ltb, ◌==◌, if◌then◌else◌, get_elem?, set, keep, length, unwrap_or,
}
use mathlib.Core.Option
use poolbeg.Config.{
  ChainConfig, UpstreamConfig, UpstreamRole, primary, secondary, fallback, UpstreamStrategy,
}
use poolbeg.Rpc.Types.{JsonRpcResponse}
use poolbeg.Rpc.Types.Truncated.{truncate_json}
use poolbeg.Rpc.Codec.{Codec}
use poolbeg.Upstream.Client
use poolbeg.Upstream.Client.{
  UpstreamClient, HttpOutcome, is_healthy, record_success, record_failure, send_request,
  try_acquire_rate_limit, u64_max,
}
use poolbeg.Upstream.Strategy.{select}

-- `==` on `UpstreamRole`.
abbrev pub same_role : UpstreamRole → UpstreamRole → Bool
same_role primary primary = true
same_role secondary secondary = true
same_role fallback fallback = true
same_role _ _ = false

-- The indices, from `i` on, of the healthy upstreams of a role.
unfoldable pub tier_from : ℕ → UpstreamRole → List UpstreamClient → List ℕ
tier_from i role [] = []
tier_from i role (u ∷ us) =
    let rest = tier_from (suc i) role us in
    if same_role u.role role && is_healthy u then i ∷ rest else rest

abbrev pub latency_at : List UpstreamClient → ℕ → ℕ
latency_at us i = elim (get_elem? us i) [ some u ↦ u.latency_us | none ↦ u64_max ]

-- The preferred upstream first, then the rest of the tier.
unfoldable pub attempt_order : Option ℕ → List ℕ → List ℕ
attempt_order none tier = tier
attempt_order (some p) tier = p ∷ keep (λ i. not (p == i)) tier

-- The clocks and the network during one call, and whether the log of an answer panics.
pub record Exchange : Type 0 where
  pub acquired : ℕ → ℕ
  pub answered : ℕ → ℕ
  pub net : ℕ → HttpOutcome
  pub gen_range : ℕ → ℕ
  pub log_panics : JsonRpcResponse → Bool

-- What one attempt comes to.
pub data Attempt : Type 0 where
  limited failed : Attempt
  answer : JsonRpcResponse → Attempt

-- The log of an answer, with its result cut to 512 bytes: `none` is a panic.
unfoldable pub log_upstream_response : Codec → JsonRpcResponse → Option String
log_upstream_response codec resp =
    if is_some resp.fault
    then some ""
    else elim resp.result [ none ↦ some "null" | some result ↦ truncate_json codec result 512 ]

-- The answer is logged where `debug_upstream` is set.
unfoldable pub upstream_log_panics : Codec → Bool → JsonRpcResponse → Bool
upstream_log_panics codec debug_upstream resp =
    debug_upstream && not (is_some (log_upstream_response codec resp))

-- A panic in the log comes before `record_success`.
unfoldable pub attempt_one : Exchange → ℕ → UpstreamClient → UpstreamClient × Attempt
attempt_one x i u =
    let (u1, ok) = try_acquire_rate_limit u (x.acquired i) in
    let (u2, resp) = send_request u1 (x.answered i) (x.net i) in
    if ok
    then elim resp [
      | some r ↦ ((if x.log_panics r then u2 else record_success u2 (x.answered i)), answer r)
      | none ↦ (record_failure u2 (x.answered i), failed)
    ]
    else (u1, limited)

-- The state of the loops: the upstreams, the flag `all_rate_limited`, and the answer once there is one.
pub record Progress : Type 0 where
  pub upstreams : List UpstreamClient
  pub all_rate_limited : Bool
  pub answer_of : Option JsonRpcResponse

-- The loop over the attempt order; it ends with the first answer.
unfoldable pub attempts : Exchange → List ℕ → List UpstreamClient → Bool → Progress
attempts x [] us limit = record { upstreams = us; all_rate_limited = limit; answer_of = none }
attempts x (i ∷ order) us limit = elim (get_elem? us i) [
  | none ↦ attempts x order us limit
  | some u ↦
      let (u', a) = attempt_one x i u in
      elim a [
        | limited ↦ attempts x order (set us i u') limit
        | failed ↦ attempts x order (set us i u') false
        | answer r ↦ record {
          upstreams = set us i u';
          all_rate_limited = false;
          answer_of = some r;
        }
      ]
]

pub record Manager : Type 0 where
  pub upstreams : List UpstreamClient
  pub strategy : UpstreamStrategy
  pub counter : ℕ

-- The clients of a chain; `builds` tells whether the HTTP client of an upstream can be built.
unfoldable pub new_clients :
    (UpstreamConfig → Bool) → ℕ → ℕ → List UpstreamConfig → Option (List UpstreamClient)
new_clients builds retry now [] = some []
new_clients builds retry now (u ∷ us) =
    let rest = new_clients builds retry now us in
    if builds u then Option.map (λ cs. Client.new u retry now ∷ cs) rest else none

unfoldable pub new : (UpstreamConfig → Bool) → ℕ → ChainConfig → Option Manager
new builds now config =
    Option.map (λ us. record { upstreams = us; strategy = config.strategy; counter = 0 })
      (new_clients builds config.disabled_retry_interval now config.upstreams)

-- Why no answer came.
pub data Failure : Type 0 where
  no_healthy_upstream all_limited all_failed : Failure

pub data Forwarded : Type 0 where
  forwarded : JsonRpcResponse → Forwarded
  refused : Failure → Forwarded
  panicked : Forwarded

-- One tier: whether it was tried, the counter, and the progress.
unfoldable pub try_tier :
    Exchange
    → UpstreamStrategy
    → UpstreamRole
    → List UpstreamClient
    → ℕ
    → Bool
    → Bool × ℕ × Progress
try_tier x strategy role us counter limit =
    let tier = tier_from 0 role us in
    let (preferred, counter') = select (latency_at us) x.gen_range tier strategy counter in
    elim tier [
      | [] ↦ (false, counter, record { upstreams = us; all_rate_limited = limit; answer_of = none })
      | i ∷ is ↦ (true, counter', attempts x (attempt_order preferred (i ∷ is)) us limit)
    ]

unfoldable pub try_tiers :
    Exchange
    → UpstreamStrategy
    → List UpstreamRole
    → List UpstreamClient
    → ℕ
    → Bool
    → Bool
    → Bool × ℕ × Progress
try_tiers x strategy [] us counter tried limit =
    (tried, counter, record { upstreams = us; all_rate_limited = limit; answer_of = none })
try_tiers x strategy (role ∷ roles) us counter tried limit =
    let (now_tried, counter', p) = try_tier x strategy role us counter limit in
    elim p.answer_of [
      | some r ↦ (true, counter', p)
      | none ↦
          try_tiers x strategy roles p.upstreams counter' (if now_tried then true else tried)
            p.all_rate_limited
    ]

abbrev pub roles_in_order : List UpstreamRole
roles_in_order = primary ∷ secondary ∷ fallback ∷ []

abbrev pub verdict : Exchange → Bool → Progress → Forwarded
verdict x tried p = elim p.answer_of [
  | some r ↦ if x.log_panics r then panicked else forwarded r
  | none ↦
      if not tried
      then refused no_healthy_upstream
      else if p.all_rate_limited
      then refused all_limited
      else refused all_failed
]

unfoldable pub forward_request : Exchange → Manager → Manager × Forwarded
forward_request x m =
    let (tried, counter', p) =
      try_tiers x m.strategy roles_in_order m.upstreams m.counter false true in
    (record m { upstreams = p.upstreams; counter = counter' }, verdict x tried p)

-- `latest_block_number`: zero means that no block was seen yet.
unfoldable pub latest_block_number : ℕ → Option ℕ
latest_block_number n = if n == 0 then none else some n

unfoldable pub update_latest_block_number : ℕ → ℕ → ℕ
update_latest_block_number current height = if ltb current height then height else current
