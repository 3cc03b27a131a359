-- ===== src/Tests/RpcTests.antt =====
-- The JSON-RPC front end on sample requests.
use poolbeg.Prelude.{
  ℕ, ◌↔◌, zero, suc, ◌≡◌, refl, ◌≢◌, List, none, some, map, true, false, arith, and_then,
}
use poolbeg.Value.{number}
use poolbeg.Rpc.Types.{
  JsonRpcResponse, single, batch, resolve_block_tags, block_tag_param_index, param_text,
  tag_finality, resolve_tag, block_ref_is_unfinalized,
}
use poolbeg.Rpc.Types.Tags.{resolve_loses_finality}
use poolbeg.Rpc.Handler.{Setup, parse, handle_rpc, resolved, process_single_request}
use poolbeg.Rpc.Handler.Single.Ways.{Stored}
use poolbeg.Rpc.Handler.Single.{process_single_request-Stored}
use poolbeg.Rpc.Handler.Logged.{IsUnloggable, handle_rpc_panics_iff}
use poolbeg.Rpc.Handler.Whole.{handle_rpc-batch}
use poolbeg.Tests.Memory.{memory}
use poolbeg.Tests.Samples.{codec, world, setup, service, three, balance}

parsed : parse world "[...]" ≡ some (batch three)
unfolding parse
parsed = refl

abbrev quiet_setup : Setup
quiet_setup = record setup { server = record setup.server { debug_client = false } }

handle_rpc-batch_example :
    (resps : List JsonRpcResponse) × ((handle_rpc memory codec world quiet_setup service "[...]").1
      ≡ some (batch resps))
    × (map (λ p. p.id) resps ≡ map (λ q. q.id) three)
handle_rpc-batch_example =
    handle_rpc-batch memory codec world quiet_setup service "[...]" three refl refl refl parsed
      (omega arith)

process_single_request-Stored_example :
    Stored memory codec world setup
      (resolved memory codec world setup 1000 (balance "latest" (number "1")))
      service
      (process_single_request memory codec world setup service (balance "latest" (number "1"))).0
process_single_request-Stored_example =
    process_single_request-Stored memory codec world setup service (balance "latest" (number "1"))

tag_index : block_tag_param_index "eth_getBalance" ≡ some 1
unfolding block_tag_param_index
tag_index = refl

earliest_known : block_ref_is_unfinalized (balance "earliest" (number "1")) 64 ≡ false
unfolding block_ref_is_unfinalized block_tag_param_index tag_finality
earliest_known = refl

earliest_final : tag_finality "earliest" ≡ some false
unfolding tag_finality
earliest_final = refl

earliest_zero : resolve_tag 1000 64 "earliest" ≡ some "0x0"
unfolding resolve_tag
earliest_zero = refl

address_no_tag :
    (j : ℕ)
    → j ≢ 1
    → and_then (param_text j (balance "earliest" (number "1")).params) tag_finality ≡ none
unfolding tag_finality
address_no_tag zero ne = refl
address_no_tag (suc zero) ne = absurd (ne refl)
address_no_tag (suc (suc j)) ne = refl

resolve_loses_finality_example :
    (block_ref_is_unfinalized (balance "earliest" (number "1")) 64 ≡ false)
    × (block_ref_is_unfinalized (resolve_block_tags (balance "earliest" (number "1")) 1000 64) 64
        ≡ true)
resolve_loses_finality_example =
    resolve_loses_finality (balance "earliest" (number "1")) 1000 64 64 1 "earliest" "0x0" tag_index
      refl earliest_final earliest_zero address_no_tag

single_parsed : parse world "{...}" ≡ some (single (balance "latest" (number "1")))
unfolding parse
single_parsed = refl

handle_rpc_panics_iff_example : ((handle_rpc memory codec world setup service "{...}").1 ≡ none) ↔ (
    (true ≡ true)
    × ((resp : JsonRpcResponse) × ((process_single_request memory codec world setup service
            (balance "latest" (number "1"))).1
          ≡ some resp)
        × IsUnloggable codec resp))
handle_rpc_panics_iff_example =
    handle_rpc_panics_iff memory codec world setup service "{...}" (balance "latest" (number "1"))
      refl single_parsed
