-- ===== src/Upstream/HealthCheck.antt =====
-- The health check loop: src/upstream/health.rs. `tick` is one round of `health_check_loop`:
-- `asked` is the time of the test whether a check is due, `now` that at which the outcome of the request
-- is known.
use poolbeg.Prelude.{
  ℕ, suc, ◌+◌, ◌≤◌, ◌≡◌, refl, Bool, true, false, ◌&&◌, List, [], ◌∷◌, ◌++◌, Option, none, some,
  if◌then◌else◌, length, and_then, parse_hex, arith, Bool-cases, inl, inr, Option-cases,
}
use poolbeg.Value.{as_str}
use poolbeg.Rpc.Types.{JsonRpcResponse}
use poolbeg.Upstream.Client.{
  UpstreamClient, HttpOutcome, unreachable, reply, is_healthy, set_healthy, set_block_height,
  is_due_for_check, recent, has_too_many_http_errors, record_success, record_failure,
  record_http_error, send_request, max_http_errors, update_latency, is_success, is_error_status,
}

-- The block height that the answer to `eth_blockNumber` gives.
abbrev pub height_of : JsonRpcResponse → Option ℕ
height_of resp = and_then (and_then resp.result as_str) parse_hex

unfoldable pub judge : UpstreamClient → Option JsonRpcResponse → UpstreamClient × Bool
judge u none = (u, false)
judge u (some resp) = elim (height_of resp) [
  | some height ↦ (set_block_height u height, true)
  | none ↦ (u, false)
]

unfoldable pub check_upstream : UpstreamClient → ℕ → HttpOutcome → UpstreamClient × Bool
unfolding judge
check_upstream u now outcome = let (u', resp) = send_request u now outcome in judge u' resp

-- What follows the request: `healthy` is its verdict. The test of the errors is only made, and the
-- list only pruned, for a healthy verdict on a disabled upstream.
unfoldable pub settle : UpstreamClient → ℕ → Bool → UpstreamClient
settle u now healthy =
    let (pruned, too_many) = has_too_many_http_errors u now in
    let v = if healthy && u.disabled then pruned else u in
    if healthy && u.disabled && too_many
    then record_success v now
    else if healthy
    then record_success (set_healthy v healthy) now
    else record_failure (set_healthy v healthy) now

unfoldable pub tick : UpstreamClient → ℕ → ℕ → HttpOutcome → UpstreamClient
unfolding settle
tick u asked now outcome =
    let (u', healthy) = check_upstream u now outcome in
    if is_due_for_check u asked then settle u' now healthy else u

-- The counts of `upstream_status_loop`: healthy, unhealthy and disabled upstreams.
pub record Status : Type 0 where
  pub ok : ℕ
  pub unhealthy : ℕ
  pub disabled : ℕ

unfoldable pub count_status : List UpstreamClient → Status
count_status [] = record { ok = 0; unhealthy = 0; disabled = 0 }
count_status (u ∷ us) =
    let s = count_status us in
    if u.disabled
    then record s { disabled = s.disabled + 1 }
    else if is_healthy u
    then record s { ok = s.ok + 1 }
    else record s { unhealthy = s.unhealthy + 1 }

-- Every upstream is counted once.
pub count_status-total :
    (us : List UpstreamClient)
    → (count_status us).ok + (count_status us).unhealthy + (count_status us).disabled ≡ length us
unfolding count_status
count_status-total [] = omega arith
count_status-total (u ∷ us) = ground (arith, count_status-total us)

recent_idem : (now : ℕ) (xs : List ℕ) → recent now (recent now xs) ≡ recent now xs
unfolding recent
recent_idem now [] = refl
recent_idem now (x ∷ xs) = ground (arith, recent_idem now xs)

recent-append-le :
    (now : ℕ) (xs ys : List ℕ) → length (recent now xs) ≤ length (recent now (xs ++ ys))
unfolding recent
recent-append-le now [] ys = omega arith
recent-append-le now (x ∷ xs) ys = ground (arith, recent-append-le now xs ys)

-- Disabled, with too many errors inside the window.
record IsBlocked (u : UpstreamClient) (now : ℕ) : Type 0 where
  off : u.disabled ≡ true
  many : max_http_errors ≤ length (recent now u.http_error_times)

record_http_error-IsBlocked :
    (u : UpstreamClient) (now : ℕ) → IsBlocked u now → IsBlocked (record_http_error u now) now
unfolding record_http_error
record_http_error-IsBlocked u now b = ground (
  arith,
  recent_idem now (u.http_error_times ++ now ∷ []),
  recent-append-le now u.http_error_times (now ∷ []),
)

send_request-IsBlocked :
    (u : UpstreamClient) (now : ℕ) (outcome : HttpOutcome)
    → IsBlocked u now
    → IsBlocked (send_request u now outcome).0 now
unfolding send_request update_latency
send_request-IsBlocked u now unreachable b = record_http_error-IsBlocked u now b
send_request-IsBlocked u now (reply status elapsed body) b =
    let u1 = update_latency u elapsed in
    let b1 : IsBlocked u1 now = record { off = b.off; many = b.many } in
    elim (Bool-cases (is_success status)) [
      | inl e ↦ rw e b1
      | inr e ↦ rw e (elim (Bool-cases (is_error_status status)) [
        | inl g ↦ rw g (record_http_error-IsBlocked u1 now b1)
        | inr g ↦ rw g b1
      ])
    ]

judge-IsBlocked :
    (u : UpstreamClient) (now : ℕ) (resp : Option JsonRpcResponse)
    → IsBlocked u now
    → IsBlocked (judge u resp).0 now
unfolding judge
judge-IsBlocked u now none b = b
judge-IsBlocked u now (some resp) b = elim (Option-cases (height_of resp)) [
  | inl e ↦ rw (e, judge) b
  | inr (h, e) ↦ rw (e, judge) (record { off = b.off; many = b.many })
]

settle-disabled :
    (u : UpstreamClient) (now : ℕ) (healthy : Bool)
    → IsBlocked u now
    → (settle u now healthy).disabled ≡ true
unfolding settle has_too_many_http_errors record_success record_failure
settle-disabled u now true b = ground (arith, recent_idem now u.http_error_times)
settle-disabled u now false b = ground arith

-- While five HTTP errors lie inside the window, a disabled upstream stays disabled through every
-- health check, whatever the check finds.
tick-disabled :
    (u : UpstreamClient) (asked now : ℕ) (outcome : HttpOutcome)
    → u.disabled ≡ true
    → max_http_errors ≤ length (recent now u.http_error_times)
    → (tick u asked now outcome).disabled ≡ true
unfolding tick check_upstream
tick-disabled u asked now outcome d many = elim (Bool-cases (is_due_for_check u asked)) [
  | inl e ↦ rw e (
      settle-disabled (check_upstream u now outcome).0 now (check_upstream u now outcome).1 (
        judge-IsBlocked (send_request u now outcome).0 now (send_request u now outcome).1
          (send_request-IsBlocked u now outcome (record { off = d; many = many }))))
  | inr e ↦ rw e d
]

check_upstream-height :
    (u : UpstreamClient) (now status elapsed height : ℕ) (resp : JsonRpcResponse)
    → is_success status ≡ true
    → height_of resp ≡ some height
    → check_upstream u now (reply status elapsed (some resp))
      ≡ (set_block_height (update_latency u elapsed) height, true)
unfolding check_upstream send_request
check_upstream-height u now status elapsed height resp good found = rw good (rw (found, judge))

settle-recovers :
    (u : UpstreamClient) (now : ℕ)
    → suc (length (recent now u.http_error_times)) ≤ max_http_errors
    → (is_healthy (settle u now true) ≡ true)
      × ((settle u now true).consecutive_failures ≡ 0)
      × ((settle u now true).block_height ≡ u.block_height)
unfolding settle has_too_many_http_errors record_success
settle-recovers u now few = ground (arith, recent_idem now u.http_error_times)

-- A check that is due and is answered with a block number makes the upstream healthy with its
-- failures forgotten, unless five HTTP errors are still inside the window.
pub tick-recovers :
    (u : UpstreamClient) (asked now status elapsed height : ℕ) (resp : JsonRpcResponse)
    → is_due_for_check u asked ≡ true
    → is_success status ≡ true
    → height_of resp ≡ some height
    → suc (length (recent now u.http_error_times)) ≤ max_http_errors
    → (is_healthy (tick u asked now (reply status elapsed (some resp))) ≡ true)
      × ((tick u asked now (reply status elapsed (some resp))).consecutive_failures ≡ 0)
      × ((tick u asked now (reply status elapsed (some resp))).block_height ≡ height)
unfolding tick update_latency
tick-recovers u asked now status elapsed height resp due good found few = rw due (
    rw (check_upstream-height u now status elapsed height resp good found)
      (settle-recovers (set_block_height (update_latency u elapsed) height) now few))
