-- ===== src/Middleware/RateLimit.antt =====
-- The token bucket and the rate-limit middleware: src/middleware/rate_limit.rs. Times are nanoseconds
-- and tokens are counted in billionths, so that one nanosecond adds `refill_rate` of them: the
-- source's floating-point numbers, without their rounding.
use poolbeg.Prelude.{
  ℕ, ◌+◌, ◌-◌, ◌*◌, Bool, true, false, leb, if◌then◌else◌, min, Option, none, some, String, map,
  str_eq, unwrap_or, and_then, ◌==◌,
}
use Prim.Native.Char.{code}
use poolbeg.Value.{Value, null, string, number, object, field, end, get, as_array, array_of}

pub record RateLimiter : Type 0 where
  pub tokens : ℕ
  pub max_tokens : ℕ
  pub refill_rate : ℕ
  pub last_refill : ℕ

abbrev pub one_token : ℕ
one_token = 1000000000

unfoldable pub new : ℕ → ℕ → RateLimiter
new max_rps now = record {
  tokens = max_rps * one_token;
  max_tokens = max_rps * one_token;
  refill_rate = max_rps;
  last_refill = now;
}

unfoldable pub refill : RateLimiter → ℕ → RateLimiter
refill rl now = record rl {
  tokens = min (rl.tokens + (now - rl.last_refill) * rl.refill_rate) rl.max_tokens;
  last_refill = now;
}

unfoldable pub try_acquire : RateLimiter → ℕ → RateLimiter × Bool
unfolding refill
try_acquire rl now =
    let full = refill rl now in
    if leb one_token full.tokens
    then (record full { tokens = full.tokens - one_token }, true)
    else (full, false)

-- The outcome of the middleware: the request goes on, or the error body is sent with status 429.
pub data Limited : Type 0 where
  passed : Limited
  refused : Value → Limited

unfoldable pub make_error : Value → Value
make_error id = object (
    field "jsonrpc" (string "2.0") (
      field "error"
        (object
          (field "code" (number "-32005") (field "message" (string "Rate limit exceeded") end)))
        (field "id" id end)))

abbrev id_of : Value → Value
id_of v = unwrap_or (get v "id") null

-- `bytes.first() == Some(&b'[')`
unfoldable pub starts_array : String → Bool
starts_array String.[] = false
starts_array (String.◌∷◌ c s) = code c == b'['

-- `from_slice` reads the body as JSON; a batch must be an array.
unfoldable pub rate_limit_response : (String → Option Value) → String → Value
unfolding make_error starts_array
rate_limit_response from_slice body =
    if starts_array body
    then elim (and_then (from_slice body) as_array) [
      | some arr ↦ array_of (map (λ v. make_error (id_of v)) arr)
      | none ↦ make_error null
    ]
    else elim (from_slice body) [ some v ↦ make_error (id_of v) | none ↦ make_error null ]

unfoldable pub client_rate_limit :
    (String → Option Value) → String → String → RateLimiter → ℕ → RateLimiter × Limited
unfolding rate_limit_response
client_rate_limit from_slice path body limiter now =
    if str_eq path "/health"
    then (limiter, passed)
    else (let (limiter', allowed) = try_acquire limiter now in
        (limiter', if allowed then passed else refused (rate_limit_response from_slice body)))
