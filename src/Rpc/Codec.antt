-- ===== src/Rpc/Codec.antt =====
-- Reading and printing JSON text and hashing, which are third-party code (serde_json and blake3):
-- functions that the model takes as parameters. `none` is an error.
use poolbeg.Prelude.{◌≡◌, Option, String}
use Prim.Native.String.{len}
use poolbeg.Value.{Value}
use poolbeg.Rpc.Types.{JsonRpcRequest, JsonRpcResponse}

pub record Codec : Type 0 where
  -- `serde_json::to_string(..).unwrap_or_default()` of a value, and `from_str` of one.
  pub encode_value : Value → String
  pub decode_value : String → Option Value
  -- `serde_json::to_string` and `from_str` at a response.
  pub encode_response : JsonRpcResponse → Option String
  pub decode_response : String → Option JsonRpcResponse
  -- `serde_json::from_value::<JsonRpcRequest>` and `to_value` of a response.
  pub request_of_value : Value → Option JsonRpcRequest
  pub value_of_response : JsonRpcResponse → Value
  -- The blake3 hash of a text, in hexadecimal.
  pub hash_hex : String → String

-- A blake3 hash has 32 bytes, which are 64 hexadecimal digits.
abbrev pub HashLength : Codec → Type 0
HashLength c = (t : String) → len (c.hash_hex t) ≡ 64

-- The ideal hash: texts of different values do not collide.
abbrev pub CollisionFree : Codec → Type 0
CollisionFree c =
    (v w : Value) → c.hash_hex (c.encode_value v) ≡ c.hash_hex (c.encode_value w) → v ≡ w
