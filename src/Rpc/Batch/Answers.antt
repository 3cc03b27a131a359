-- ===== src/Rpc/Batch/Answers.antt =====
-- Every request of a batch is answered, under its own id.
use poolbeg.Prelude.{
  ℕ, zero, suc, ◌≡◌, refl, sym, ap, ◌∙◌, List, [], ◌∷◌, map, Option, none, some, String, get_elem?,
  length, length-map, lookup, arith,
}
use poolbeg.Value.{Value}
use poolbeg.Rpc.Types.{JsonRpcRequest, JsonRpcResponse}
use poolbeg.Rpc.Batch.{first_pass, third_pass, unwrap_all, process_batch}
use poolbeg.Rpc.Batch.Duplicates.{some_inj, first_pass-Leads, first_pass-length}
use poolbeg.Rpc.Batch.Passes.{
  FilledAs, LeadersFilled, OthersFilled, second_pass-IsMade, third_pass-length, third_pass-FilledAs,
  unwrap_all-ids,
}

get_elem?-inside :
    {A B : Type 0} (xs : List A) (ys : List B) (i : ℕ) {a : A}
    → length xs ≡ length ys
    → get_elem? xs i ≡ some a
    → (b : B) × (get_elem? ys i ≡ some b)
get_elem?-inside [] ys i e g = absurd (cc)
get_elem?-inside (x ∷ xs) [] i e g = absurd (omega (arith, e))
get_elem?-inside (x ∷ xs) (y ∷ ys) zero e g = (y, refl)
get_elem?-inside (x ∷ xs) (y ∷ ys) (suc i) e g = get_elem?-inside xs ys i (omega (arith, e)) g

get_elem?-map :
    {A B : Type 0} (f : A → B) (xs : List A) (i : ℕ) (a : A)
    → get_elem? xs i ≡ some a
    → get_elem? (map f xs) i ≡ some (f a)
get_elem?-map f [] i a e = absurd (cc)
get_elem?-map f (x ∷ xs) zero a e = ap (λ o. elim o [ none ↦ none | some y ↦ some (f y) ]) e
get_elem?-map f (x ∷ xs) (suc i) a e = get_elem?-map f xs i a e

module _ {ℓ} {S : Type ℓ} (process : S → JsonRpcRequest → S × Option JsonRpcResponse)
    (dedup_key : JsonRpcRequest → Option String) (I : S → Type 0)
    (keeps : (s : S) (req : JsonRpcRequest) → I s → I (process s req).0)
    (answers : (s : S) (req : JsonRpcRequest)
      → I s
      → (resp : JsonRpcResponse) × ((process s req).1 ≡ some resp) × (resp.id ≡ req.id)) where
  -- The passes after the second one.
  third_pass-ids :
      (reqs : List JsonRpcRequest) (rs : List (Option JsonRpcResponse))
      → length rs ≡ length reqs
      → ((p : ℕ) (req : JsonRpcRequest)
          → get_elem? (first_pass dedup_key 0 reqs []) p ≡ some none
          → get_elem? reqs p ≡ some req
          → FilledAs rs p req.id)
      → (resps : List JsonRpcResponse) × (unwrap_all
            (third_pass 0 (first_pass dedup_key 0 reqs []) (map (λ q. q.id) reqs) rs)
          ≡ some resps)
        × (map (λ r. r.id) resps ≡ map (λ q. q.id) reqs)
  unfolding lookup
  third_pass-ids reqs rs size answered =
      unwrap_all-ids ids (third_pass 0 ds ids rs)
        (third_pass-length 0 ds ids rs ∙ size ∙ sym (length-map (λ q. q.id) reqs))
        (λ p v g.
          third_pass-FilledAs 0 ds ids rs (len ∙ sym (length-map (λ q. q.id) reqs))
            (omega (arith, len, size)) leaders others p p v (omega arith) g)
    where
      ds : List (Option ℕ)
      ds = first_pass dedup_key 0 reqs []

      ids : List Value
      ids = map (λ q. q.id) reqs

      len : length ds ≡ length reqs
      len = first_pass-length dedup_key 0 reqs []

      leaders : LeadersFilled ds rs
      leaders k j e =
          let lead =
            first_pass-Leads dedup_key reqs [] [] (λ _ _ h. absurd (cc)) (λ _ _ h. absurd (cc)) k j
              e in
          let (q, g) = get_elem?-inside ds reqs j len lead in
          let (o, h, _) = answered j q lead g in (o, h)

      others : OthersFilled 0 ds ids rs
      others p k v at e g =
          let (q, h) = get_elem?-inside ds reqs k len e in
          let (o, a, b) = answered k q e h in
          let same : p ≡ k = omega (arith, at) in
          (o, rw same a, b ∙ some_inj (sym (get_elem?-map (λ r. r.id) reqs k q h) ∙ g))

  -- If each request that is processed alone is answered under its own id, so is each request of a
  -- batch, duplicates included, in order; and nothing panics.
  pub process_batch-ids :
      (s : S) (reqs : List JsonRpcRequest)
      → I s
      → (resps : List JsonRpcResponse) × ((process_batch process dedup_key s reqs).1 ≡ some resps)
        × (map (λ r. r.id) resps ≡ map (λ q. q.id) reqs)
  unfolding process_batch
  process_batch-ids s reqs i =
      let ds = first_pass dedup_key 0 reqs [] in
      let (rs, made, (size, answered)) =
        second_pass-IsMade process I keeps answers ds reqs s i
          (first_pass-length dedup_key 0 reqs []) in
      let (resps, e, ids) = third_pass-ids reqs rs size answered in
      (resps, rw (made, process_batch) e, ids)
