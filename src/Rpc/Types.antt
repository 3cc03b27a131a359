-- ===== src/Rpc/Types.antt =====
-- Requests, responses and block tags: src/rpc/types.rs.
pub mod Tags
pub mod Truncated
use poolbeg.Prelude.{
  ℕ, zero, ◌-◌, ◌≤◌, Bool, true, false, ◌&&◌, ◌||◌, List, [], ◌∷◌, Option, none, some, String,
  str_eq, starts_with, if◌then◌else◌, any, get_elem?, set, and_then, to_hex, ℤ,
}
use poolbeg.Value.{Value, null, string, array, number, as_str, as_array, to_list, of_list}

pub record JsonRpcRequest : Type 0 where
  pub jsonrpc : String
  pub method : String
  pub params : Value
  pub id : Value

pub record JsonRpcError : Type 0 where
  pub code : ℤ
  pub message : String
  pub extra : Option Value

pub record JsonRpcResponse : Type 0 where
  pub jsonrpc : String
  pub id : Value
  pub result : Option Value
  pub fault : Option JsonRpcError

pub data RpcRequest : Type 0 where
  single : JsonRpcRequest → RpcRequest
  batch : List JsonRpcRequest → RpcRequest

pub data RpcResponse : Type 0 where
  single : JsonRpcResponse → RpcResponse
  batch : List JsonRpcResponse → RpcResponse

unfoldable pub error : Value → ℤ → String → JsonRpcResponse
error id code message = record {
  jsonrpc = "2.0";
  id = id;
  result = none;
  fault = some (record { code = code; message = message; extra = none });
}

unfoldable pub success : Value → Value → JsonRpcResponse
success id result = record { jsonrpc = "2.0"; id = id; result = some result; fault = none }

unfoldable pub is_method_blocked : String → List String → Bool
is_method_blocked method blocked = any (λ prefix. starts_with method prefix) blocked

abbrev uncacheable_methods : List String
uncacheable_methods =
    "eth_sendRawTransaction" ∷ "eth_sendTransaction" ∷ "eth_estimateGas" ∷ "eth_call"
    ∷ "eth_createAccessList" ∷ "eth_gasPrice" ∷ "eth_maxPriorityFeePerGas" ∷ "eth_feeHistory"
    ∷ "net_listening" ∷ "net_peerCount" ∷ "web3_clientVersion" ∷ "eth_subscribe" ∷ "eth_unsubscribe"
    ∷ []

unfoldable pub is_uncacheable : String → Bool
is_uncacheable method = any (λ m. str_eq method m) uncacheable_methods

unfoldable pub block_tag_param_index : String → Option ℕ
block_tag_param_index method =
    if str_eq method "eth_getBalance"
      || str_eq method "eth_getCode"
      || str_eq method "eth_getTransactionCount"
      || str_eq method "eth_getStorageAt"
    then (if str_eq method "eth_getStorageAt" then some 2 else some 1)
    else if str_eq method "eth_getBlockByNumber"
        || str_eq method "eth_getBlockTransactionCountByNumber"
        || str_eq method "eth_getUncleCountByBlockNumber"
        || str_eq method "eth_getUncleByBlockNumber"
    then some 0
    else none

-- The inner `match tag` of `resolve_block_tags`; `saturating_sub` is `-` on natural numbers.
unfoldable pub resolve_tag : ℕ → ℕ → String → Option String
resolve_tag latest_block finality_depth tag =
    if str_eq tag "latest"
    then some (to_hex latest_block)
    else if str_eq tag "safe" || str_eq tag "finalized"
    then some (to_hex (latest_block - finality_depth))
    else if str_eq tag "earliest"
    then some "0x0"
    else none

-- The text that the parameter at `idx` of an array of parameters holds.
abbrev pub param_text : ℕ → Value → Option String
param_text idx params = and_then (as_array params) (λ arr. and_then (get_elem? arr idx) as_str)

abbrev pub set_param : ℕ → String → Value → Value
set_param idx s (array vs) = array (of_list (set (to_list vs) idx (string s)))
set_param idx s v = v

unfoldable pub resolve_block_tags : JsonRpcRequest → ℕ → ℕ → JsonRpcRequest
resolve_block_tags req latest_block finality_depth = elim (block_tag_param_index req.method) [
  | none ↦ req
  | some idx ↦
      elim (and_then (param_text idx req.params) (resolve_tag latest_block finality_depth)) [
        | none ↦ req
        | some resolved ↦ record req { params = set_param idx resolved req.params }
      ]
]

-- The `match s` on a parameter's text: `some b` is `return b`, `none` goes on.
unfoldable pub tag_finality : String → Option Bool
tag_finality s =
    if str_eq s "latest" || str_eq s "pending" || str_eq s "safe"
    then some true
    else if str_eq s "earliest" || str_eq s "finalized"
    then some false
    else none

-- The scan over all parameters: the first text that is a tag decides.
unfoldable pub scan_tags : List Value → Option Bool
scan_tags [] = none
scan_tags (v ∷ vs) = elim (and_then (as_str v) tag_finality) [
  | none ↦ scan_tags vs
  | some b ↦ some b
]

unfoldable pub block_ref_is_unfinalized : JsonRpcRequest → ℕ → Bool
block_ref_is_unfinalized req finality_depth =
    elim (and_then (block_tag_param_index req.method)
      (λ idx. and_then (param_text idx req.params) tag_finality)) [
        | some b ↦ b
        | none ↦ elim (and_then (as_array req.params) scan_tags) [
          | some b ↦ b
          | none ↦
              if str_eq req.method "eth_blockNumber" || str_eq req.method "eth_getFilterChanges"
              then true
              else true
        ]
      ]
