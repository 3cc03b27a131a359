-- ===== src/Rpc/Batch/Kept.antt =====
-- What each request of a batch keeps, the batch keeps.
use poolbeg.Prelude.{ℕ, List, [], ◌∷◌, Option, none, some, String, Option-cases, inl, inr}
use poolbeg.Rpc.Types.{JsonRpcRequest, JsonRpcResponse}
use poolbeg.Rpc.Batch.{first_pass, second_pass, process_batch}

module _ {S : Type 0} (process : S → JsonRpcRequest → S × Option JsonRpcResponse) (I : S → Type 0)
    (keeps : (s : S) (req : JsonRpcRequest) → I s → I (process s req).0) where
  second_pass-keeps :
      (ds : List (Option ℕ)) (reqs : List JsonRpcRequest) (s : S)
      → I s
      → I (second_pass process ds reqs s).0
  unfolding second_pass
  second_pass-keeps [] reqs s i = i
  second_pass-keeps (none ∷ ds) [] s i = i
  second_pass-keeps (some j ∷ ds) [] s i = i
  second_pass-keeps (none ∷ ds) (req ∷ reqs) s i = elim (Option-cases (process s req).1) [
    | inl e ↦ rw (e, second_pass) (keeps s req i)
    | inr (resp, e) ↦
        rw (e, second_pass) (second_pass-keeps ds reqs (process s req).0 (keeps s req i))
  ]
  second_pass-keeps (some j ∷ ds) (req ∷ reqs) s i = second_pass-keeps ds reqs s i

  pub process_batch-keeps :
      (dedup_key : JsonRpcRequest → Option String) (s : S) (reqs : List JsonRpcRequest)
      → I s
      → I (process_batch process dedup_key s reqs).0
  unfolding process_batch
  process_batch-keeps dedup_key s reqs i =
      second_pass-keeps (first_pass dedup_key 0 reqs []) reqs s i
