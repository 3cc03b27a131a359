-- ===== src/Rpc/Batch.antt =====
-- `process_batch` of src/rpc/handler.rs: three passes over the requests of a batch. `process` is
-- `process_single_request` with the log of its response, on the state that it changes, or `none` where
-- that panics, and `dedup_key` the cache key of a request
-- that may be shared.
pub mod Duplicates
pub mod Passes
pub mod Kept
pub mod Answers
use poolbeg.Prelude.{
  ℕ, suc, List, [], ◌∷◌, Option, none, some, String, map, get_elem?, set, lookup, insert, and_then,
}
use poolbeg.Value.{Value}
use poolbeg.Rpc.Types.{JsonRpcRequest, JsonRpcResponse}

-- The first pass, from index `i` on, gives `dedup_map`: the index of the first request with the same key.
unfoldable pub first_pass :
    (JsonRpcRequest → Option String) → ℕ → List JsonRpcRequest → List (String × ℕ) → List (Option ℕ)
first_pass dedup_key i [] seen = []
first_pass dedup_key i (req ∷ reqs) seen = elim (dedup_key req) [
  | none ↦ none ∷ first_pass dedup_key (suc i) reqs seen
  | some key ↦ elim (lookup key seen) [
    | some first_idx ↦ some first_idx ∷ first_pass dedup_key (suc i) reqs seen
    | none ↦ none ∷ first_pass dedup_key (suc i) reqs (insert key i seen)
  ]
]

module _ {ℓ} {S : Type ℓ} (process : S → JsonRpcRequest → S × Option JsonRpcResponse) where
  -- The second pass answers the requests that are no duplicates; it ends with the first panic.
  unfoldable pub second_pass :
      List (Option ℕ) → List JsonRpcRequest → S → S × Option (List (Option JsonRpcResponse))
  second_pass (none ∷ ds) (req ∷ reqs) s =
      let (s1, answer) = process s req in
      elim answer [
        | none ↦ (s1, none)
        | some resp ↦
            let (s2, rest) = second_pass ds reqs s1 in
            (s2, and_then rest (λ rs. some (some resp ∷ rs)))
      ]
  second_pass (some j ∷ ds) (req ∷ reqs) s =
      let (s1, rest) = second_pass ds reqs s in (s1, and_then rest (λ rs. some (none ∷ rs)))
  second_pass ds reqs s = (s, some [])

-- One round of the third pass, at index `i`.
unfoldable pub fill :
    ℕ → Option ℕ → Value → List (Option JsonRpcResponse) → List (Option JsonRpcResponse)
fill i none id rs = rs
fill i (some first_idx) id rs = elim (and_then (get_elem? rs first_idx) (λ resp. resp)) [
  | none ↦ rs
  | some original_resp ↦ set rs i (some (record original_resp { id = id }))
]

unfoldable pub third_pass :
    ℕ → List (Option ℕ) → List Value → List (Option JsonRpcResponse) → List (Option JsonRpcResponse)
third_pass i (d ∷ ds) (id ∷ ids) rs = third_pass (suc i) ds ids (fill i d id rs)
third_pass i ds ids rs = rs

-- `unwrap` of every response; `none` is a panic, here too.
unfoldable pub unwrap_all : List (Option JsonRpcResponse) → Option (List JsonRpcResponse)
unwrap_all [] = some []
unwrap_all (none ∷ rs) = none
unwrap_all (some resp ∷ rs) = elim (unwrap_all rs) [
  | none ↦ none
  | some resps ↦ some (resp ∷ resps)
]

module _ {ℓ} {S : Type ℓ} (process : S → JsonRpcRequest → S × Option JsonRpcResponse)
    (dedup_key : JsonRpcRequest → Option String) where
  unfoldable pub process_batch : S → List JsonRpcRequest → S × Option (List JsonRpcResponse)
  process_batch s reqs =
      let dedup_map = first_pass dedup_key 0 reqs [] in
      let (s', responses) = second_pass process dedup_map reqs s in
      (
        s',
        and_then responses
            (λ rs. unwrap_all (third_pass 0 dedup_map (map (λ req. req.id) reqs) rs)),
      )
