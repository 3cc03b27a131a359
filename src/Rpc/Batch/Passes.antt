-- ===== src/Rpc/Batch/Passes.antt =====
-- What the second and the third pass leave at each index.
use poolbeg.Prelude.{
  ℕ, zero, suc, ◌+◌, ◌<◌, ◌≡◌, refl, sym, ap, ◌∙◌, ◌≢◌, List, [], ◌∷◌, map, Option, none, some,
  get_elem?, set, and_then, get_elem?-set_self, get_elem?-set_ne, length, length-set, Option-cases,
  inl, inr, arith,
}
use poolbeg.Value.{Value}
use poolbeg.Rpc.Types.{JsonRpcRequest, JsonRpcResponse}
use poolbeg.Rpc.Batch.{second_pass, fill, third_pass, unwrap_all}
use poolbeg.Rpc.Batch.Duplicates.{some_inj}

-- There is an answer at index `p`, and it has the id `v`.
abbrev Filled : List (Option JsonRpcResponse) → ℕ → Type 0
Filled rs p = (o : JsonRpcResponse) × (get_elem? rs p ≡ some (some o))

abbrev pub FilledAs : List (Option JsonRpcResponse) → ℕ → Value → Type 0
FilledAs rs p v = (o : JsonRpcResponse) × (get_elem? rs p ≡ some (some o)) × (o.id ≡ v)

-- The second pass answers exactly the requests that are no duplicates, in order, if nothing panics.
module _ {ℓ} {S : Type ℓ} (process : S → JsonRpcRequest → S × Option JsonRpcResponse)
    (I : S → Type 0) (keeps : (s : S) (req : JsonRpcRequest) → I s → I (process s req).0)
    (answers : (s : S) (req : JsonRpcRequest)
      → I s
      → (resp : JsonRpcResponse) × ((process s req).1 ≡ some resp) × (resp.id ≡ req.id)) where
  abbrev IsMade : List (Option ℕ) → List JsonRpcRequest → List (Option JsonRpcResponse) → Type 0
  IsMade ds reqs rs =
      (length rs ≡ length reqs)
      × ((p : ℕ) (req : JsonRpcRequest)
          → get_elem? ds p ≡ some none
          → get_elem? reqs p ≡ some req
          → FilledAs rs p req.id)

  answered-IsMade :
      (ds : List (Option ℕ)) (q : JsonRpcRequest) (reqs : List JsonRpcRequest)
      (resp : JsonRpcResponse) (rs : List (Option JsonRpcResponse))
      → resp.id ≡ q.id
      → IsMade ds reqs rs
      → IsMade (none ∷ ds) (q ∷ reqs) (some resp ∷ rs)
  answered-IsMade ds q reqs resp rs same (size, filled) = (ap suc size, go)
    where
      go :
          (p : ℕ) (req : JsonRpcRequest)
          → get_elem? (none ∷ ds) p ≡ some none
          → get_elem? (q ∷ reqs) p ≡ some req
          → FilledAs (some resp ∷ rs) p req.id
      go zero req e g = (resp, refl, same ∙ ap (λ r. r.id) (some_inj g))
      go (suc p) req e g = filled p req e g

  skipped-IsMade :
      (ds : List (Option ℕ)) (j : ℕ) (q : JsonRpcRequest) (reqs : List JsonRpcRequest)
      (rs : List (Option JsonRpcResponse))
      → IsMade ds reqs rs
      → IsMade (some j ∷ ds) (q ∷ reqs) (none ∷ rs)
  skipped-IsMade ds j q reqs rs (size, filled) = (ap suc size, go)
    where
      go :
          (p : ℕ) (req : JsonRpcRequest)
          → get_elem? (some j ∷ ds) p ≡ some none
          → get_elem? (q ∷ reqs) p ≡ some req
          → FilledAs (none ∷ rs) p req.id
      go zero req e g = absurd (cc)
      go (suc p) req e g = filled p req e g

  pub second_pass-IsMade :
      (ds : List (Option ℕ)) (reqs : List JsonRpcRequest) (s : S)
      → I s
      → length ds ≡ length reqs
      → (rs : List (Option JsonRpcResponse)) × ((second_pass process ds reqs s).1 ≡ some rs)
        × IsMade ds reqs rs
  unfolding second_pass
  second_pass-IsMade [] [] s i e = ([], refl, (refl, λ p req h. absurd (cc)))
  second_pass-IsMade [] (req ∷ reqs) s i e = absurd (omega (arith, e))
  second_pass-IsMade (d ∷ ds) [] s i e = absurd (omega (arith, e))
  second_pass-IsMade (none ∷ ds) (req ∷ reqs) s i e =
      let (resp, h, same) = answers s req i in
      let (rs, made, ok) =
        second_pass-IsMade ds reqs (process s req).0 (keeps s req i) (omega (arith, e)) in
      (
        some resp ∷ rs,
        rw (h, second_pass) (rw made refl),
        answered-IsMade ds req reqs resp rs same ok,
      )
  second_pass-IsMade (some j ∷ ds) (req ∷ reqs) s i e =
      let (rs, made, ok) = second_pass-IsMade ds reqs s i (omega (arith, e)) in
      (none ∷ rs, rw (made, second_pass) refl, skipped-IsMade ds j req reqs rs ok)

abbrev leader : ℕ → List (Option JsonRpcResponse) → Option JsonRpcResponse
leader j rs = and_then (get_elem? rs j) (λ resp. resp)

set-Filled :
    (rs : List (Option JsonRpcResponse)) (i p : ℕ) (o : JsonRpcResponse)
    → Filled rs p
    → Filled (set rs i (some o)) p
set-Filled [] i p o h = h
set-Filled (r ∷ rs) zero zero o h = (o, refl)
set-Filled (r ∷ rs) zero (suc p) o h = h
set-Filled (r ∷ rs) (suc i) zero o h = h
set-Filled (r ∷ rs) (suc i) (suc p) o h = set-Filled rs i p o h

-- One round of the third pass changes its own index only, and fills it.
fill-Filled :
    (i : ℕ) (d : Option ℕ) (id : Value) (rs : List (Option JsonRpcResponse)) (p : ℕ)
    → Filled rs p
    → Filled (fill i d id rs) p
unfolding fill
fill-Filled i none id rs p h = h
fill-Filled i (some j) id rs p h = elim (Option-cases (leader j rs)) [
  | inl e ↦ rw (e, leader, fill) h
  | inr (o, e) ↦ rw (e, leader, fill) (set-Filled rs i p (record o { id = id }) h)
]

fill-other :
    (i : ℕ) (d : Option ℕ) (id : Value) (rs : List (Option JsonRpcResponse)) (p : ℕ)
    → i ≢ p
    → get_elem? (fill i d id rs) p ≡ get_elem? rs p
unfolding fill
fill-other i none id rs p ne = refl
fill-other i (some j) id rs p ne = elim (Option-cases (leader j rs)) [
  | inl e ↦ rw (e, leader, fill)
  | inr (o, e) ↦ rw (e, leader, fill) (get_elem?-set_ne rs (some (record o { id = id })) ne)
]

fill-length :
    (i : ℕ) (d : Option ℕ) (id : Value) (rs : List (Option JsonRpcResponse))
    → length (fill i d id rs) ≡ length rs
unfolding fill
fill-length i none id rs = refl
fill-length i (some j) id rs = elim (Option-cases (leader j rs)) [
  | inl e ↦ rw (e, leader, fill)
  | inr (o, e) ↦ rw (e, leader, fill) (length-set rs i (some (record o { id = id })))
]

fill-here :
    (i j : ℕ) (id : Value) (rs : List (Option JsonRpcResponse))
    → i < length rs
    → Filled rs j
    → FilledAs (fill i (some j) id rs) i id
unfolding fill
fill-here i j id rs inside (o, e) = (
  record o { id = id },
  rw (e, fill) (get_elem?-set_self rs i (some (record o { id = id })) inside),
  refl,
)

third_pass-other :
    (i p : ℕ) (ds : List (Option ℕ)) (ids : List Value) (rs : List (Option JsonRpcResponse))
    → p < i
    → get_elem? (third_pass i ds ids rs) p ≡ get_elem? rs p
unfolding third_pass
third_pass-other i p [] ids rs h = refl
third_pass-other i p (d ∷ ds) [] rs h = refl
third_pass-other i p (d ∷ ds) (id ∷ ids) rs h =
    third_pass-other (suc i) p ds ids (fill i d id rs) (omega arith)
    ∙ fill-other i d id rs p (omega arith)

pub third_pass-length :
    (i : ℕ) (ds : List (Option ℕ)) (ids : List Value) (rs : List (Option JsonRpcResponse))
    → length (third_pass i ds ids rs) ≡ length rs
unfolding third_pass
third_pass-length i [] ids rs = refl
third_pass-length i (d ∷ ds) [] rs = refl
third_pass-length i (d ∷ ds) (id ∷ ids) rs =
    third_pass-length (suc i) ds ids (fill i d id rs) ∙ fill-length i d id rs

-- What the third pass relies on: the leaders are answered, and so are the requests without one, under their ids.
abbrev pub LeadersFilled : List (Option ℕ) → List (Option JsonRpcResponse) → Type 0
LeadersFilled ds rs = (k j : ℕ) → get_elem? ds k ≡ some (some j) → Filled rs j

abbrev pub OthersFilled : ℕ → List (Option ℕ) → List Value → List (Option JsonRpcResponse) → Type 0
OthersFilled i ds ids rs =
    (q k : ℕ) (v : Value)
    → q ≡ i + k
    → get_elem? ds k ≡ some none
    → get_elem? ids k ≡ some v
    → FilledAs rs q v

fill-FilledAs :
    (i : ℕ) (d : Option ℕ) (id : Value) (ds : List (Option ℕ)) (ids : List Value)
    (rs : List (Option JsonRpcResponse))
    → i + length (d ∷ ds) ≡ length rs
    → LeadersFilled (d ∷ ds) rs
    → OthersFilled i (d ∷ ds) (id ∷ ids) rs
    → FilledAs (fill i d id rs) i id
unfolding fill
fill-FilledAs i none id ds ids rs size leaders others = others i 0 id (omega arith) refl refl
fill-FilledAs i (some j) id ds ids rs size leaders others =
    fill-here i j id rs (omega (arith, size)) (leaders 0 j refl)

pub third_pass-FilledAs :
    (i : ℕ) (ds : List (Option ℕ)) (ids : List Value) (rs : List (Option JsonRpcResponse))
    → length ds ≡ length ids
    → i + length ds ≡ length rs
    → LeadersFilled ds rs
    → OthersFilled i ds ids rs
    → (q p : ℕ) (v : Value) → q ≡ i + p
    → get_elem? ids p ≡ some v
    → FilledAs (third_pass i ds ids rs) q v
unfolding third_pass
third_pass-FilledAs i ds [] rs same size leaders others q p v e g = absurd (cc)
third_pass-FilledAs i [] (id ∷ ids) rs same size leaders others q p v e g =
    absurd (omega (arith, same))
third_pass-FilledAs i (d ∷ ds) (id ∷ ids) rs same size leaders others q zero v e g =
    let (o, h, k) = fill-FilledAs i d id ds ids rs size leaders others in
    let at : q ≡ i = omega (arith, e) in
    (
      o,
      third_pass-other (suc i) q ds ids (fill i d id rs) (omega (arith, at)) ∙ rw at h,
      k ∙ some_inj g,
    )
third_pass-FilledAs i (d ∷ ds) (id ∷ ids) rs same size leaders others q (suc p) v e g =
    third_pass-FilledAs (suc i) ds ids (fill i d id rs) (omega (arith, same))
      (omega (arith, size, fill-length i d id rs))
      (λ k j h. fill-Filled i d id rs j (leaders (suc k) j h))
      (λ q' k w at h h'.
        let (o, a, b) = others q' (suc k) w (omega arith) h h' in
        (o, fill-other i d id rs q' (omega arith) ∙ a, b))
      q p v (omega arith) g

pub unwrap_all-ids :
    (ids : List Value) (rs : List (Option JsonRpcResponse))
    → length rs ≡ length ids
    → ((p : ℕ) (v : Value) → get_elem? ids p ≡ some v → FilledAs rs p v)
    → (resps : List JsonRpcResponse) × (unwrap_all rs ≡ some resps) × (map (λ r. r.id) resps ≡ ids)
unfolding unwrap_all
unwrap_all-ids [] [] e all = ([], refl, refl)
unwrap_all-ids [] (r ∷ rs) e all = absurd (omega (arith, e))
unwrap_all-ids (id ∷ ids) [] e all = absurd (omega (arith, e))
unwrap_all-ids (id ∷ ids) (none ∷ rs) e all = let (o, h, k) = all 0 id refl in absurd (cc)
unwrap_all-ids (id ∷ ids) (some r ∷ rs) e all =
    let (resps, h, k) = unwrap_all-ids ids rs (omega (arith, e)) (λ p. all (suc p)) in
    let (o, a, b) = all 0 id refl in let same : o ≡ r = cc in (r ∷ resps, rw h, rw (k, sym b, same))
