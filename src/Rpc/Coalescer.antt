-- ===== src/Rpc/Coalescer.antt =====
-- `RequestCoalescer` of src/rpc/coalescer.rs. The map of requests in flight is the list of their keys; a
-- waiter's `rx.recv().await` is `received`, the text that the other task broadcasts, or `none` if its
-- sender is dropped first. `execute` is the closure, on the state that it changes.
pub mod Tasks
use poolbeg.Prelude.{
  not, List, ◌∷◌, Option, none, some, String, str_eq, any, keep, if◌then◌else◌, and_then,
}
use poolbeg.Rpc.Types.{JsonRpcResponse}
use poolbeg.Rpc.Codec.{Codec}

-- What a waiter is given, if its key is in flight and the text can be read.
unfoldable pub coalesced : Codec → List String → String → Option String → Option JsonRpcResponse
coalesced codec in_flight key received =
    if any (λ k. str_eq k key) in_flight then and_then received codec.decode_response else none

-- The map once the closure is done: the key was put in before it, and is taken out after it, unless it
-- panics.
unfoldable pub left_in_flight : List String → String → Option JsonRpcResponse → List String
left_in_flight in_flight key none = key ∷ keep (λ k. not (str_eq k key)) in_flight
left_in_flight in_flight key (some resp) = keep (λ k. not (str_eq k key)) in_flight

module _ {ℓ} {S : Type ℓ} (codec : Codec) where
  -- The map, the state and the response after the call; `none` is a panic in the closure.
  unfoldable pub coalesce_or_execute :
      List String
      → String
      → Option String
      → (S → S × Option JsonRpcResponse)
      → S
      → List String × S × Option JsonRpcResponse
  coalesce_or_execute in_flight key received execute s =
      let (s', resp) = execute s in
      elim (coalesced codec in_flight key received) [
        | some shared ↦ (in_flight, s, some shared)
        | none ↦ (left_in_flight in_flight key resp, s', resp)
      ]
