-- ===== src/Cache/Keys.antt =====
-- The keys of the cache: src/cache/keys.rs, with `normalize_for_cache` of src/rpc/types.rs.
pub mod Apart
use Prim.Native.Char.{Char, code}
use Prim.Native.String
use Prim.Native.String.{len}
use text.Mathlib.TextLemmas.{append_cancel_left, cons-eq-cons, cons-append}
use poolbeg.Prelude.{
  ℕ, ◌≡◌, refl, ap, ◌↔◌, false, String, str_eq, str_ne_head, eq_iff, to_decimal, ◌==◌, arith,
  Bool-cases, inl, inr,
}
use poolbeg.Value.{Value, string, number, object, field, end}
use poolbeg.Rpc.Types.{JsonRpcRequest}
use poolbeg.Rpc.Codec.{Codec, HashLength, CollisionFree}

unfoldable pub normalize_for_cache : JsonRpcRequest → Value
normalize_for_cache req = object (
    field "jsonrpc" (string "2.0") (
      field "method" (string req.method) (field "params" req.params (field "id" (number "0") end))))

-- `format!("poolbeg:{}:…", chain_id)`
unfoldable pub chain_key : ℕ → String → String
chain_key chain_id rest =
    String.◌++◌ "poolbeg:" (String.◌++◌ (to_decimal chain_id) (String.◌∷◌ ":" rest))

unfoldable pub cache_key : Codec → ℕ → JsonRpcRequest → String
cache_key codec chain_id req =
    chain_key chain_id (codec.hash_hex (codec.encode_value (normalize_for_cache req)))

unfoldable pub block_by_number_key : ℕ → ℕ → String
block_by_number_key chain_id height =
    chain_key chain_id (String.◌++◌ "block:number:" (to_decimal height))

unfoldable pub block_by_hash_key : ℕ → String → String
block_by_hash_key chain_id hash = chain_key chain_id (String.◌++◌ "block:hash:" hash)

unfoldable pub block_logs_key : ℕ → ℕ → String
block_logs_key chain_id block_number =
    chain_key chain_id (String.◌++◌ "logs:" (to_decimal block_number))

unfoldable pub head_cache_set_key : ℕ → String
head_cache_set_key chain_id = chain_key chain_id "head_cache"

chain_key_cancel : (c : ℕ) (s t : String) → chain_key c s ≡ chain_key c t → s ≡ t
unfolding chain_key
chain_key_cancel c s t h =
    (cons-eq-cons.0 (
      append_cancel_left (to_decimal c) (String.◌∷◌ ":" s) (String.◌∷◌ ":" t) (
        append_cancel_left "poolbeg:" (String.◌++◌ (to_decimal c) (String.◌∷◌ ":" s))
          (String.◌++◌ (to_decimal c) (String.◌∷◌ ":" t)) h))).1

pub str_ne : (s t : String) → ¬ (s ≡ t) → str_eq s t ≡ false
str_ne s t h = elim (Bool-cases (str_eq s t)) [ inl e ↦ absurd (h ((eq_iff s t).0 e)) | inr e ↦ e ]

chain_key_ne :
    (c : ℕ) (s t : String) → str_eq s t ≡ false → str_eq (chain_key c s) (chain_key c t) ≡ false
chain_key_ne c s t h =
    str_ne (chain_key c s) (chain_key c t)
      (λ e. ground (arith, eq_iff s t, chain_key_cancel c s t e))

append_ne_head :
    (c d : Char) (s x t : String)
    → (code c == code d) ≡ false
    → str_eq (String.◌++◌ (String.◌∷◌ c s) x) (String.◌∷◌ d t) ≡ false
append_ne_head c d s x t h = rw (cons-append c s x) (str_ne_head c d (String.◌++◌ s x) t h)

-- No key of a cached value is the key of the set that tracks them.
pub block_by_number_key-ne-head :
    (c n : ℕ) → str_eq (block_by_number_key c n) (head_cache_set_key c) ≡ false
unfolding block_by_number_key head_cache_set_key
block_by_number_key-ne-head c n =
    chain_key_ne c _ _ (append_ne_head "b" "h" "lock:number:" (to_decimal n) "ead_cache" refl)

pub block_by_hash_key-ne-head :
    (c : ℕ) (h : String) → str_eq (block_by_hash_key c h) (head_cache_set_key c) ≡ false
unfolding block_by_hash_key head_cache_set_key
block_by_hash_key-ne-head c h =
    chain_key_ne c _ _ (append_ne_head "b" "h" "lock:hash:" h "ead_cache" refl)

pub block_logs_key-ne-head : (c n : ℕ) → str_eq (block_logs_key c n) (head_cache_set_key c) ≡ false
unfolding block_logs_key head_cache_set_key
block_logs_key-ne-head c n =
    chain_key_ne c _ _ (append_ne_head "l" "h" "ogs:" (to_decimal n) "ead_cache" refl)

pub cache_key-ne-head :
    (codec : Codec) (c : ℕ) (q : JsonRpcRequest)
    → HashLength codec
    → str_eq (cache_key codec c q) (head_cache_set_key c) ≡ false
unfolding cache_key head_cache_set_key
cache_key-ne-head codec c q long =
    let t = codec.encode_value (normalize_for_cache q) in
    chain_key_ne c (codec.hash_hex t) "head_cache"
      (str_ne (codec.hash_hex t) "head_cache" (λ e. absurd (omega (arith, long t, ap len e))))
