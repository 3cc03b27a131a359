-- ===== src/Tests/StartTests.antt =====
-- A server that starts from a sample configuration, and requests to it.
use poolbeg.Prelude.{◌*◌, ◌≤◌, ◌≡◌, refl, [], ◌∷◌, true, none, some, length, get_elem?, lookup}
use poolbeg.Config.{ChainConfig}
use poolbeg.Config.Routes.{validate}
use poolbeg.Config.Sections.{
  from_str, read_config, each, read_chain, read_server, read_auth, read_upstream, read_interval,
  read_metrics, read_redis, read_cache,
}
use poolbeg.Config.Duration.{parse_duration_string}
use poolbeg.Config.Load.{
  loaded, load, interpolate_env_vars, interpolate, capture, up_to_brace, value_of, split_default,
}
use poolbeg.Config.Load.Interpolated.{
  plain, variable, variable_or, interpolate_env_vars-template_text,
}
use poolbeg.Middleware.RateLimit
use poolbeg.Middleware.RateLimit.{RateLimiter, try_acquire, client_rate_limit, one_token}
use poolbeg.Middleware.Auth.{auth_middleware, api_key}
use poolbeg.Upstream.Client
use poolbeg.Upstream.Manager
use poolbeg.Upstream.Manager.{Manager, new_clients}
use poolbeg.Upstream.Manager.Background.{health_check_loops, start_tracker, start_trackers}
use poolbeg.Upstream.PublicEndpoints.{unreachable, resolve_auto_public}
use poolbeg.Server.{
  rpc, handled, route_table, chain_routes, new_managers, setup, run, launch, routed, authenticated,
  respond,
}
use poolbeg.Server.Guarded.{IsAdmitted, respond-IsAdmitted}
use poolbeg.Server.Started.{launch-validate, launch-in_range}
use poolbeg.Server.Throughput.{respond_all, respond_all-max_tokens}
use poolbeg.Tests.Samples.{chain}
use poolbeg.Tests.StartSamples.{
  env, search, web, web-Laws, config, yaml, from_yaml, startup, request, managers, server, serving,
}
use poolbeg.Rpc.Types.{RpcResponse}
use poolbeg.Server.Running.{running_of, body, answer_body, steps}
use poolbeg.Server.Running.Answered.{launch-answer_body}
use poolbeg.Tests.Memory.{memory}
use poolbeg.Tests.Samples.{codec, world, empty}

interpolate_env_vars-template_text_example : interpolate_env_vars env "-${A}${B:-y}" ≡ "-xy"
interpolate_env_vars-template_text_example =
    interpolate_env_vars-template_text env (plain "-" ∷ variable "A" ∷ variable_or "B" "y" ∷ [])
      ((refl, _), ((refl, (refl, _), (refl, _)), (((refl, _), (refl, _), (refl, _)), _)))

loads : load env from_yaml (some "${A}") ≡ loaded config
unfolding load interpolate_env_vars interpolate capture up_to_brace value_of split_default validate
    lookup
loads = refl

launched : launch web startup env yaml (some "${A}") unreachable ≡ some serving
unfolding from_str read_config read_cache read_redis read_metrics each read_chain read_server
    read_auth read_upstream read_interval parse_duration_string launch run load setup
    interpolate_env_vars interpolate capture up_to_brace value_of split_default validate lookup
    resolve_auto_public new_managers Manager.new new_clients start_trackers start_tracker
    health_check_loops Client.new
launched = refl

comes_in : (respond web (λ t. none) server 7 (request "secret")).1 ≡ handled (rpc 0)
unfolding respond authenticated routed auth_middleware api_key client_rate_limit try_acquire
    route_table chain_routes search RateLimit.new
comes_in = refl

respond-IsAdmitted_example : IsAdmitted web server 7 (request "secret") (rpc 0)
respond-IsAdmitted_example =
    respond-IsAdmitted web (λ t. none) server 7 (request "secret") (rpc 0) comes_in

launch-validate_example : validate (chain ∷ []) ≡ none
launch-validate_example =
    launch-validate web startup env yaml (some "${A}") unreachable serving launched

launch-in_range_example :
    (m : Manager) × (c : ChainConfig) × (get_elem? managers 0 ≡ some m)
    × (get_elem? (chain ∷ []) 0 ≡ some c)
    × (length m.upstreams ≡ length c.upstreams)
    × (web-Laws.fits c.route "/eth" ≡ true)
launch-in_range_example =
    launch-in_range web startup env yaml (some "${A}") unreachable serving web-Laws launched
      (λ t. none) (RateLimit.new 100 5) 7 (request "secret") (rpc 0) 0 refl comes_in

respond_all-max_tokens_example :
    (respond_all web (λ t. none) server ((7, request "secret") ∷ (7, request "") ∷ [])).1
      * one_token
    ≤ 100 * one_token
unfolding RateLimit.new
respond_all-max_tokens_example =
    respond_all-max_tokens web (λ t. none) server 7 ((7, request "secret") ∷ (7, request "") ∷ [])
      (refl, (refl, tt))

launch-answer_body_example :
    (resp : RpcResponse) × ((answer_body memory codec
        (λ i. world)
        serving.server.config
        (steps memory codec
          (λ i. world)
          serving.server.config
          (running_of empty serving.server)
          (body 0 "[...]" ∷ []))
        0
        "{}").1
      ≡ some resp)
launch-answer_body_example =
    launch-answer_body memory codec (λ i. world) web web-Laws startup env yaml (some "${A}")
      unreachable serving launched refl refl empty (body 0 "[...]" ∷ []) (λ t. none)
      (RateLimit.new 100 5) 7 (request "secret") 0 comes_in
