-- ===== src/Tests/PanicTests.antt =====
-- A request whose answer cannot be logged.
use poolbeg.Prelude.{◌≡◌, refl, true, false, any, str_eq, none}
use poolbeg.Value.{number}
use poolbeg.Rpc.Types.{
  is_uncacheable, is_method_blocked, resolve_block_tags, block_tag_param_index, resolve_tag,
}
use poolbeg.Rpc.Types.Truncated.{truncate_json, byte_length, len_utf8, slice_to}
use poolbeg.Rpc.Codec.{Codec}
use poolbeg.Rpc.Coalescer.{left_in_flight, coalesced, coalesce_or_execute}
use poolbeg.Rpc.Handler.{
  Setup, try_memory_intercept, resolved, serve, coalesced_forward, forward_to_upstream,
  process_single_request,
}
use poolbeg.Rpc.Handler.Single.{process_single_request-panicked}
use poolbeg.Cache.Keys.{cache_key}
use poolbeg.Cache.Layer
use poolbeg.Cache.Client
use poolbeg.Prelude.{lookup}
use poolbeg.Middleware.RateLimit
use poolbeg.Upstream.Client.{
  try_acquire_rate_limit, send_request, record_failure, record_http_error, recent,
}
use poolbeg.Upstream.Strategy.{select}
use poolbeg.Upstream.Manager.{
  log_upstream_response, upstream_log_panics, forward_request, try_tiers, try_tier, tier_from,
  attempts, attempt_order, attempt_one, latest_block_number,
}
use poolbeg.Tests.Memory.{memory}
use poolbeg.Tests.Samples.{codec, world, setup, service, balance}

-- Each value is written as 171 characters of three bytes.
abbrev wide : Codec
wide = record codec {
  encode_value = λ v.
      "€€€€€€€€€€€€€€€€€€€€€€€€€€€€€€€€€€€€€€€€€€€€€€€€€€€€€€€€€€€€€€€€€€€€€€€€€€€€€€€€€€€€€€€€€€€€€€€€€€€€€€€€€€€€€€€€€€€€€€€€€€€€€€€€€€€€€€€€€€€€€€€€€€€€€€€€€€€€€€€€€€€€€€€€€€€";
}

abbrev loud : Setup
loud = record setup { server = record setup.server { debug_upstream = true } }

uncached :
    is_uncacheable (resolved memory wide world loud 1000 (balance "0x5" (number "1"))).method
    ≡ false
unfolding is_uncacheable resolved latest_block_number resolve_block_tags block_tag_param_index
    resolve_tag
uncached = refl

crashes :
    (process_single_request memory wide world loud service (balance "0x5" (number "1"))).1 ≡ none
unfolding process_single_request is_method_blocked try_memory_intercept resolved latest_block_number
    resolve_block_tags block_tag_param_index resolve_tag serve is_uncacheable Layer.get Client.get
    lookup coalesced_forward coalesce_or_execute coalesced forward_to_upstream forward_request
    try_tiers try_tier tier_from attempts attempt_order select attempt_one try_acquire_rate_limit
    RateLimit.try_acquire send_request record_failure record_http_error recent upstream_log_panics
    log_upstream_response truncate_json byte_length len_utf8 slice_to left_in_flight
crashes = refl

process_single_request-panicked_example :
    any
      (λ k.
        str_eq k
          (cache_key wide 1 (resolved memory wide world loud 1000 (balance "0x5" (number "1")))))
      (process_single_request memory wide world loud service
        (balance "0x5" (number "1"))).0.in_flight
    ≡ true
process_single_request-panicked_example =
    process_single_request-panicked memory wide world loud service (balance "0x5" (number "1"))
      uncached crashes
