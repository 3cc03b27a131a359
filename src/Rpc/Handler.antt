-- ===== src/Rpc/Handler.antt =====
-- The HTTP handler: src/rpc/handler.rs, with `RpcRequest::parse` of src/rpc/types.rs. Metrics are left
-- out, and of the logging what can panic is
-- modelled. No other task runs between the steps of one request: what the rest of the system does
-- stands in `World`.
pub mod Single
pub mod Whole
pub mod Logged
pub mod Chains
pub mod Cached
use Prim.Native.String
use poolbeg.Prelude.{
  ℕ, suc, ◌+◌, Bool, true, false, not, ◌&&◌, ◌||◌, List, [], ◌∷◌, Option, none, some, String,
  str_eq, if◌then◌else◌, is_some, ltb, length, to_hex, to_decimal, ℤ, negsuc, starts_with, and_then,
}
use poolbeg.Value.{Value, null, string}
use poolbeg.Config.{CachePolicy, ChainConfig, ServerConfig}
use poolbeg.Rpc.Types.{
  JsonRpcRequest, JsonRpcResponse, RpcRequest, single, batch, RpcResponse, single as one,
  batch as many, error, success, is_method_blocked, is_uncacheable, resolve_block_tags,
  block_ref_is_unfinalized,
}
use poolbeg.Rpc.Types.Truncated.{truncate_json}
use poolbeg.Rpc.Codec.{Codec}
use poolbeg.Rpc.Coalescer.{coalesce_or_execute}
use poolbeg.Rpc.Batch
use poolbeg.Cache.Redis.{Redis}
use poolbeg.Cache.Keys.{cache_key}
use poolbeg.Cache.Layer
use poolbeg.Upstream.Manager.{
  Manager, Exchange, Forwarded, forwarded, refused, Failure, no_healthy_upstream, all_limited,
  all_failed, panicked, forward_request, upstream_log_panics, latest_block_number,
}

-- What the rest of the system does during the calls: the upstreams' behaviour on a request, the text
-- that another task in flight broadcasts, and `serde_json::from_slice` of a body. The number counts the
-- requests that were processed.
pub record World : Type 0 where
  pub exchange : ℕ → JsonRpcRequest → Exchange
  pub received : ℕ → Option String
  pub read_one : String → Option JsonRpcRequest
  pub read_many : String → Option (List JsonRpcRequest)

pub record Setup : Type 0 where
  pub chain : ChainConfig
  pub server : ServerConfig
  pub policies : List CachePolicy

-- The state that a request may change, and the latest block number, which the tracker sets.
pub record Service (C : Type 0) : Type 0 where
  pub cache : C
  pub manager : Manager
  pub in_flight : List String
  pub latest : ℕ
  pub turn : ℕ

unfoldable pub failure_text : ChainConfig → JsonRpcRequest → Failure → String
failure_text chain req no_healthy_upstream =
    String.◌++◌ "no healthy upstreams available for chain " chain.name
failure_text chain req all_limited = String.◌++◌ "all upstreams rate limited for chain " (
    String.◌++◌ chain.name
      (String.◌++◌ " (method " (String.◌++◌ req.method "). Consider increasing upstream max_rps")))
failure_text chain req all_failed = String.◌++◌ "all upstreams failed for chain " chain.name

unfoldable pub try_memory_intercept : ChainConfig → ℕ → String → Value → Option JsonRpcResponse
try_memory_intercept chain latest method original_id =
    if str_eq method "eth_chainId"
    then some (success original_id (string (to_hex chain.chain_id)))
    else if str_eq method "net_version"
    then some (success original_id (string (to_decimal chain.chain_id)))
    else if str_eq method "eth_blockNumber"
    then elim (latest_block_number latest) [
      | some block_num ↦ some (success original_id (string (to_hex block_num)))
      | none ↦ none
    ]
    else none

-- `none` is a panic: the text of the result is cut for the log.
unfoldable pub log_client_response : Codec → JsonRpcResponse → Option String
log_client_response codec resp =
    if is_some resp.fault
    then some ""
    else elim resp.result [ none ↦ some "null" | some result ↦ truncate_json codec result 512 ]

-- The log is written where `debug_client` is set, before the response is returned.
unfoldable pub logged : Codec → Bool → JsonRpcResponse → Option JsonRpcResponse
logged codec debug_client resp =
    if debug_client
    then elim (log_client_response codec resp) [ none ↦ none | some line ↦ some resp ]
    else some resp

-- The key by which the requests of a batch are told apart.
unfoldable pub dedup_key : Codec → Setup → JsonRpcRequest → Option String
dedup_key codec setup req =
    if not (is_uncacheable req.method)
      && not (is_method_blocked req.method setup.server.blocked_methods)
    then some (cache_key codec setup.chain.chain_id req)
    else none

-- `RpcRequest::parse`: the first character tells a batch.
unfoldable pub parse : World → String → Option RpcRequest
parse world body =
    if starts_with body "["
    then elim (world.read_many body) [ none ↦ none | some reqs ↦ some (batch reqs) ]
    else elim (world.read_one body) [ none ↦ none | some req ↦ some (single req) ]

-- The exchange of a request, whose answer is logged where `debug_upstream` is set; `ChainManager::new`
-- takes the switch from the configuration of the server.
abbrev pub exchange_of : Codec → World → Setup → ℕ → JsonRpcRequest → Exchange
exchange_of codec world setup turn req = record (world.exchange turn req) {
  log_panics = upstream_log_panics codec setup.server.debug_upstream;
}

module _ (r : Redis) (codec : Codec) (world : World) (setup : Setup) where
  -- A response `none` is a panic, here and below.
  unfoldable pub forward_to_upstream :
      JsonRpcRequest → Value → Service r.State → Service r.State × Option JsonRpcResponse
  forward_to_upstream req original_id s =
      let (m, answer) = forward_request (exchange_of codec world setup s.turn req) s.manager in
      let s1 = record s { manager = m; turn = suc s.turn } in
      elim answer [
        | forwarded resp ↦
            let kept =
              Layer.set r codec setup.policies s.cache setup.chain.chain_id req resp
                (block_ref_is_unfinalized req setup.chain.finality_depth) in
            (
              (if not (is_uncacheable req.method) && not (is_some resp.fault)
                  then record s1 { cache = kept }
                  else s1),
              some (record resp { id = original_id }),
            )
        | panicked ↦ (s1, none)
        | refused why ↦ (
          s1,
          some (
              error original_id (negsuc 32602)
                (String.◌++◌ "upstream error: " (failure_text setup.chain req why))),
        )
      ]

  unfoldable pub coalesced_forward :
      JsonRpcRequest → Value → Service r.State → Service r.State × Option JsonRpcResponse
  coalesced_forward req original_id s =
      let (in_flight, s', resp) =
        coalesce_or_execute codec s.in_flight (cache_key codec setup.chain.chain_id req)
          (world.received s.turn) (forward_to_upstream req original_id) s in
      (record s' { in_flight = in_flight }, resp)

  -- From the cache on, for a request whose block tags are resolved.
  unfoldable pub serve :
      JsonRpcRequest → Value → Service r.State → Service r.State × Option JsonRpcResponse
  serve req original_id s =
      if not (is_uncacheable req.method)
      then elim (Layer.get r codec s.cache setup.chain.chain_id req) [
        | some cached ↦ elim (codec.decode_response cached) [
          | some resp ↦ (s, some (record resp { id = original_id }))
          | none ↦ coalesced_forward req original_id s
        ]
        | none ↦ coalesced_forward req original_id s
      ]
      else forward_to_upstream req original_id s

  unfoldable pub resolved : ℕ → JsonRpcRequest → JsonRpcRequest
  resolved latest req = elim (latest_block_number latest) [
    | some latest_block ↦ resolve_block_tags req latest_block setup.chain.finality_depth
    | none ↦ req
  ]

  unfoldable pub process_single_request :
      Service r.State → JsonRpcRequest → Service r.State × Option JsonRpcResponse
  process_single_request s req =
      if is_method_blocked req.method setup.server.blocked_methods
      then (s, some (error req.id (negsuc 32600) "Method not allowed"))
      else elim (try_memory_intercept setup.chain s.latest req.method req.id) [
        | some resp ↦ (s, some resp)
        | none ↦ serve (resolved s.latest req) req.id s
      ]

  -- A request with the log of its response.
  abbrev pub process_logged :
      Service r.State → JsonRpcRequest → Service r.State × Option JsonRpcResponse
  process_logged s req =
      let (s', resp) = process_single_request s req in
      (s', and_then resp (logged codec setup.server.debug_client))

  -- The body's answer: `none` stands for a panic.
  unfoldable pub handle_rpc : Service r.State → String → Service r.State × Option RpcResponse
  handle_rpc s body = elim (parse world body) [
    | none ↦ (s, some (one (error null (negsuc 32699) "Parse error")))
    | some (single req) ↦
        let (s', answer) = process_logged s req in (s', and_then answer (λ resp. some (one resp)))
    | some (batch reqs) ↦
        let (s', resps) = Batch.process_batch process_logged (dedup_key codec setup) s reqs in
        if ltb setup.server.max_batch_size (length reqs)
        then (
          s,
          some (
              one (
                error null (negsuc 32599) (
                  String.◌++◌ "Batch too large: " (
                    String.◌++◌ (to_decimal (length reqs)) (
                      String.◌++◌ " requests exceeds limit of "
                        (to_decimal setup.server.max_batch_size)))))),
        )
        else (s', elim resps [ none ↦ none | some rs ↦ some (many rs) ])
  ]
