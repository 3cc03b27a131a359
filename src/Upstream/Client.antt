-- ===== src/Upstream/Client.antt =====
-- One upstream node: src/upstream/client.rs. The atomics and mutexes of `UpstreamClient` are fields of
-- a record, `Instant`s are nanoseconds and arguments of the calls, and the HTTP exchange is a value of
-- `HttpOutcome`. Each method runs without interruption.
pub mod Health
pub mod Latency
use poolbeg.Prelude.{
  ℕ, ◌+◌, ◌-◌, ◌*◌, ◌/◌, ◌%◌, ◌^◌, ◌≡◌, refl, Bool, true, false, not, ◌&&◌, ◌||◌, List, [], ◌∷◌,
  ◌++◌, Option, none, some, String, ltb, leb, ◌==◌, if◌then◌else◌, length, keep, u64_mod, min,
}
use poolbeg.Config.{UpstreamConfig, UpstreamRole}
use poolbeg.Config.Duration.{from_secs}
use poolbeg.Rpc.Types.{JsonRpcResponse}
use poolbeg.Middleware.RateLimit
use poolbeg.Middleware.RateLimit.{RateLimiter}

abbrev pub base_backoff : ℕ
base_backoff = from_secs 10

abbrev pub max_backoff : ℕ
max_backoff = from_secs 600

abbrev pub max_consecutive_failures : ℕ
max_consecutive_failures = 6

abbrev pub max_http_errors : ℕ
max_http_errors = 5

abbrev pub http_error_window : ℕ
http_error_window = from_secs 3600

abbrev pub u32_mod : ℕ
u32_mod = 4294967296

abbrev pub u64_max : ℕ
u64_max = u64_mod - 1

pub record UpstreamClient : Type 0 where
  pub id : String
  pub role : UpstreamRole
  pub ws_url : Option String
  pub healthy : Bool
  pub disabled : Bool
  pub consecutive_failures : ℕ
  pub next_check_at : ℕ
  pub disabled_retry_interval : ℕ
  pub block_height : ℕ
  pub latency_us : ℕ
  pub rate_limiter : RateLimiter
  pub http_error_times : List ℕ

unfoldable pub new : UpstreamConfig → ℕ → ℕ → UpstreamClient
new config disabled_retry_interval now = record {
  id = config.id;
  role = config.role;
  ws_url = config.ws_url;
  healthy = true;
  disabled = false;
  consecutive_failures = 0;
  next_check_at = now;
  disabled_retry_interval = disabled_retry_interval;
  block_height = 0;
  latency_us = u64_max;
  rate_limiter = RateLimit.new config.max_rps now;
  http_error_times = [];
}

abbrev pub is_healthy : UpstreamClient → Bool
is_healthy u = not u.disabled && u.healthy

abbrev pub set_healthy : UpstreamClient → Bool → UpstreamClient
set_healthy u healthy = record u { healthy = healthy }

unfoldable pub is_due_for_check : UpstreamClient → ℕ → Bool
is_due_for_check u now = leb u.next_check_at now

-- The errors that are younger than the window; `duration_since` stops at zero.
unfoldable pub recent : ℕ → List ℕ → List ℕ
recent now = keep (λ t. ltb (now - t) http_error_window)

-- The pruned list is kept.
unfoldable pub has_too_many_http_errors : UpstreamClient → ℕ → UpstreamClient × Bool
has_too_many_http_errors u now =
    let times = recent now u.http_error_times in
    (record u { http_error_times = times }, leb max_http_errors (length times))

unfoldable pub record_success : UpstreamClient → ℕ → UpstreamClient
unfolding has_too_many_http_errors
record_success u now =
    let u1 = record u { consecutive_failures = 0 } in
    let enabled = record u1 { disabled = false; next_check_at = now } in
    let (u2, too_many) = has_too_many_http_errors u1 now in
    if u.disabled
    then (if too_many
        then record u2 { next_check_at = now + u.disabled_retry_interval }
        else record enabled { http_error_times = [] })
    else enabled

-- `BASE_BACKOFF.saturating_mul(1u32.wrapping_shl(failures - 1)).min(MAX_BACKOFF)`
unfoldable pub backoff : ℕ → ℕ
backoff failures = min (base_backoff * 2 ^ ((failures - 1) % 32)) max_backoff

unfoldable pub record_failure : UpstreamClient → ℕ → UpstreamClient
record_failure u now =
    let failures = (u.consecutive_failures + 1) % u32_mod in
    if leb max_consecutive_failures failures
    then record u {
      consecutive_failures = failures;
      disabled = true;
      healthy = false;
      next_check_at = now + u.disabled_retry_interval;
    }
    else record u { consecutive_failures = failures; next_check_at = now + backoff failures }

-- Products are computed in u64 and wrap.
unfoldable pub ema : ℕ → ℕ → ℕ
ema prev new_us =
    if prev == u64_max then new_us else (new_us * 3 % u64_mod + prev * 7 % u64_mod) % u64_mod / 10

unfoldable pub update_latency : UpstreamClient → ℕ → UpstreamClient
unfolding ema
update_latency u elapsed = record u { latency_us = ema u.latency_us (elapsed / 1000 % u64_mod) }

abbrev pub set_block_height : UpstreamClient → ℕ → UpstreamClient
set_block_height u height = record u { block_height = height }

unfoldable pub try_acquire_rate_limit : UpstreamClient → ℕ → UpstreamClient × Bool
try_acquire_rate_limit u now =
    let (rl, ok) = RateLimit.try_acquire u.rate_limiter now in (record u { rate_limiter = rl }, ok)

unfoldable pub record_http_error : UpstreamClient → ℕ → UpstreamClient
record_http_error u now =
    let times = recent now (u.http_error_times ++ now ∷ []) in
    if leb max_http_errors (length times)
    then record u {
      http_error_times = times;
      disabled = true;
      healthy = false;
      next_check_at = now + u.disabled_retry_interval;
    }
    else record u { http_error_times = times }

-- What the network does with one request: no connection, or a status after some time with a body
-- that is a response or not.
pub data HttpOutcome : Type 0 where
  unreachable : HttpOutcome
  reply : (status elapsed : ℕ) → Option JsonRpcResponse → HttpOutcome

-- `StatusCode::is_success`, and `is_client_error() || is_server_error()`.
abbrev pub is_success : ℕ → Bool
is_success status = leb 200 status && ltb status 300

abbrev pub is_error_status : ℕ → Bool
is_error_status status = leb 400 status && ltb status 600

-- `now` is the time at which the outcome is known; `none` is an `Err`.
unfoldable pub send_request :
    UpstreamClient → ℕ → HttpOutcome → UpstreamClient × Option JsonRpcResponse
send_request u now unreachable = (record_http_error u now, none)
send_request u now (reply status elapsed body) =
    let u1 = update_latency u elapsed in
    if not (is_success status)
    then ((if is_error_status status then record_http_error u1 now else u1), none)
    else (u1, body)
