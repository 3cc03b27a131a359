-- ===== src/Cache/Layer.antt =====
-- `CacheLayer` of src/cache/mod.rs over a Redis server.
pub mod Invalidation
pub mod Stored
pub mod Chains
use poolbeg.Prelude.{
  ℕ, ◌≡◌, refl, ◌⊎◌, inl, inr, Bool, true, false, List, [], ◌∷◌, Option, none, some, String, str_eq,
  eq_iff, eq_refl, if◌then◌else◌, and_then, arith, Bool-cases,
}
use poolbeg.Value.{Value}
use poolbeg.Config.{CachePolicy}
use poolbeg.Config.Duration.{from_secs}
use poolbeg.Rpc.Types.{JsonRpcRequest, JsonRpcResponse}
use poolbeg.Rpc.Codec.{Codec, HashLength}
use poolbeg.Cache.Policy.{resolve_ttl}
use poolbeg.Cache.Redis.{Redis, Laws, Answers}
use poolbeg.Cache.Client
use poolbeg.Cache.Keys.{
  cache_key, block_by_number_key, block_by_hash_key, block_logs_key, head_cache_set_key,
  block_by_number_key-ne-head, block_by_hash_key-ne-head, block_logs_key-ne-head, cache_key-ne-head,
}

module _ (r : Redis) (codec : Codec) where
  unfoldable pub get : r.State → ℕ → JsonRpcRequest → Option String
  get s chain_id req = Client.get r s (cache_key codec chain_id req)

  -- The text is stored, and tracked if it is unfinalized.
  unfoldable pub store : r.State → ℕ → String → String → ℕ → Bool → r.State
  store s chain_id key text ttl is_unfinalized =
      let s' = Client.set r s key text ttl in
      if is_unfinalized then Client.sadd r s' (head_cache_set_key chain_id) key else s'

  unfoldable pub set :
      List CachePolicy → r.State → ℕ → JsonRpcRequest → JsonRpcResponse → Bool → r.State
  set policies s chain_id req resp is_unfinalized =
      elim (resolve_ttl policies req.method is_unfinalized) [
        | none ↦ s
        | some ttl ↦ elim (codec.encode_response resp) [
          | none ↦ s
          | some text ↦ store s chain_id (cache_key codec chain_id req) text ttl is_unfinalized
        ]
      ]

  unfoldable pub cache_block : r.State → ℕ → ℕ → String → Value → r.State
  cache_block s chain_id height hash block =
      let text = codec.encode_value block in
      let num_key = block_by_number_key chain_id height in
      let hash_key = block_by_hash_key chain_id hash in
      let set_key = head_cache_set_key chain_id in
      let s1 = Client.set r s num_key text (from_secs 60) in
      let s2 = Client.set r s1 hash_key text (from_secs 3600) in
      Client.sadd r (Client.sadd r s2 set_key num_key) set_key hash_key

  unfoldable pub cache_logs : r.State → ℕ → ℕ → Value → r.State
  cache_logs s chain_id block_number logs =
      let key = block_logs_key chain_id block_number in
      Client.sadd r (Client.set r s key (codec.encode_value logs) (from_secs 60))
        (head_cache_set_key chain_id) key

  unfoldable pub get_logs : r.State → ℕ → ℕ → Option Value
  get_logs s chain_id block_number =
      and_then (Client.get r s (block_logs_key chain_id block_number)) codec.decode_value

module _ (r : Redis) where
  unfoldable pub invalidate_head_cache : r.State → ℕ → r.State
  invalidate_head_cache s chain_id = Client.delete_set_and_members r s (head_cache_set_key chain_id)
