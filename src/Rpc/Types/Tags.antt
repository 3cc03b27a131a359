-- ===== src/Rpc/Types/Tags.antt =====
-- Block tags: what `resolve_block_tags` and `block_ref_is_unfinalized` of src/rpc/types.rs do.
mod Texts
use poolbeg.Prelude.{
  ℕ, zero, suc, ◌<◌, ◌≡◌, refl, sym, ap, ◌≢◌, ◌⊎◌, inl, inr, Bool, true, false, List, [], ◌∷◌, none,
  some, String, str_eq, str_ne_head, arith, length, get_elem?, get_elem?-set_self, get_elem?-set_ne,
  and_then, ◌-◌, ◌||◌, to_hex_zero, Option-cases, Bool-cases,
}
use native.Mathlib.Decide.{ℕ_discrete}
use poolbeg.Value.{
  Value, null, bool, number, string, array, object, to_list, of_list, as_str, as_array,
}
use poolbeg.Rpc.Types.{
  JsonRpcRequest, block_tag_param_index, resolve_tag, param_text, set_param, resolve_block_tags,
  tag_finality, scan_tags, block_ref_is_unfinalized,
}
use poolbeg.Rpc.Types.Tags.Texts.{
  resolve_tag_fix, param_text-set_self, param_text-set_ne, resolve_tag-none,
}

-- The three ways through `resolve_block_tags`.
resolve_unknown :
    (req : JsonRpcRequest) (l d : ℕ)
    → block_tag_param_index req.method ≡ none
    → resolve_block_tags req l d ≡ req
unfolding resolve_block_tags
resolve_unknown req l d h = rw (h, resolve_block_tags)

resolve_plain :
    (req : JsonRpcRequest) (l d idx : ℕ)
    → block_tag_param_index req.method ≡ some idx
    → and_then (param_text idx req.params) (resolve_tag l d) ≡ none
    → resolve_block_tags req l d ≡ req
unfolding resolve_block_tags
resolve_plain req l d idx h k = rw (h, resolve_block_tags) (rw k)

pub resolve_tagged :
    (req : JsonRpcRequest) (l d idx : ℕ) (t r : String)
    → block_tag_param_index req.method ≡ some idx
    → param_text idx req.params ≡ some t
    → resolve_tag l d t ≡ some r
    → resolve_block_tags req l d ≡ record req { params = set_param idx r req.params }
unfolding resolve_block_tags
resolve_tagged req l d idx t r h k g = rw (h, resolve_block_tags) (rw k (rw g))

-- No text, no tag, or a tag with what it resolves to.
data TagAt (idx l d : ℕ) (params : Value) : Type 0 where
  plain :
      ((l' d' : ℕ) → and_then (param_text idx params) (resolve_tag l' d') ≡ none)
      → TagAt idx l d params
  tagged :
      (t r : String)
      → param_text idx params ≡ some t
      → resolve_tag l d t ≡ some r
      → TagAt idx l d params

tag_at : (idx l d : ℕ) (params : Value) → TagAt idx l d params
tag_at idx l d params = elim (Option-cases (param_text idx params)) [
  | inl e ↦ plain (λ l' d'. rw e)
  | inr (t, e) ↦ elim (Option-cases (resolve_tag l d t)) [
    | inl k ↦ plain (λ l' d'. rw e (resolve_tag-none l d l' d' t k))
    | inr (r, k) ↦ tagged t r e k
  ]
]

resolve_known :
    (req : JsonRpcRequest) (l d l' d' idx : ℕ)
    → block_tag_param_index req.method ≡ some idx
    → TagAt idx l d req.params
    → resolve_block_tags (resolve_block_tags req l d) l' d' ≡ resolve_block_tags req l d
resolve_known req l d l' d' idx h (plain k) =
    rw (resolve_plain req l d idx h (k l d)) (resolve_plain req l' d' idx h (k l' d'))
resolve_known req l d l' d' idx h (tagged t r k g) = rw (resolve_tagged req l d idx t r h k g) (
    resolve_plain (record req { params = set_param idx r req.params }) l' d' idx h
      (rw (param_text-set_self idx req.params t r k) (resolve_tag_fix l d l' d' t r g).0))

-- A second resolution, at whatever block and depth, changes nothing: the tags are gone.
pub resolve_block_tags_idem :
    (req : JsonRpcRequest) (l d l' d' : ℕ)
    → resolve_block_tags (resolve_block_tags req l d) l' d' ≡ resolve_block_tags req l d
resolve_block_tags_idem req l d l' d' = elim (Option-cases (block_tag_param_index req.method)) [
  | inl e ↦ rw (resolve_unknown req l d e) (resolve_unknown req l' d' e)
  | inr (idx, e) ↦ resolve_known req l d l' d' idx e (tag_at idx l d req.params)
]

-- Resolution keeps the version, the method, the id and every parameter but the block parameter.
pub resolve_block_tags_frame :
    (req : JsonRpcRequest) (l d j : ℕ)
    → block_tag_param_index req.method ≢ some j
    → ((resolve_block_tags req l d).jsonrpc ≡ req.jsonrpc)
      × ((resolve_block_tags req l d).method ≡ req.method)
      × ((resolve_block_tags req l d).id ≡ req.id)
      × (param_text j (resolve_block_tags req l d).params ≡ param_text j req.params)
resolve_block_tags_frame req l d j other = elim (Option-cases (block_tag_param_index req.method)) [
  | inl e ↦ rw (resolve_unknown req l d e) (refl, refl, refl, refl)
  | inr (idx, e) ↦ elim (tag_at idx l d req.params) [
    | plain k ↦ rw (resolve_plain req l d idx e (k l d)) (refl, refl, refl, refl)
    | tagged t r k g ↦
        rw (resolve_tagged req l d idx t r e k g)
          (refl, refl, refl, param_text-set_ne idx j req.params r (λ q. other (rw (e, q))))
  ]
]

scan_tags-none :
    (vs : List Value)
    → ((j : ℕ) → and_then (and_then (get_elem? vs j) as_str) tag_finality ≡ none)
    → scan_tags vs ≡ none
unfolding scan_tags
scan_tags-none [] h = refl
scan_tags-none (v ∷ vs) h = rw (h 0, scan_tags) (scan_tags-none vs (λ j. h (suc j)))

-- The scan answers by some parameter's text.
scan_tags-some :
    (vs : List Value) (b : Bool)
    → scan_tags vs ≡ some b
    → (j : ℕ) × (s : String) × (and_then (get_elem? vs j) as_str ≡ some s)
      × (tag_finality s ≡ some b)
unfolding scan_tags
scan_tags-some [] b h = absurd (cc)
scan_tags-some (v ∷ vs) b h = elim (Option-cases (as_str v)) [
  | inl e ↦ later (scan_tags-some vs b (ground (arith, e)))
  | inr (s, e) ↦ elim (Option-cases (tag_finality s)) [
    | inl k ↦ later (scan_tags-some vs b (ground (arith, e, k)))
    | inr (c, k) ↦ (0, s, e, ground (arith, e, k))
  ]
]
  where
    later :
        (j : ℕ) × (s : String) × (and_then (get_elem? vs j) as_str ≡ some s)
          × (tag_finality s ≡ some b)
        → (j : ℕ) × (s : String) × (and_then (get_elem? (v ∷ vs) j) as_str ≡ some s)
          × (tag_finality s ≡ some b)
    later (j, s, p, q) = (suc j, s, p, q)

-- No text among the parameters is a tag.
abbrev NoTags : Value → Type 0
NoTags params = (j : ℕ) → and_then (param_text j params) tag_finality ≡ none

scan_tags-NoTags : (params : Value) → NoTags params → and_then (as_array params) scan_tags ≡ none
scan_tags-NoTags (array vs) h = scan_tags-none (to_list vs) h
scan_tags-NoTags null h = refl
scan_tags-NoTags (bool b) h = refl
scan_tags-NoTags (number n) h = refl
scan_tags-NoTags (string s) h = refl
scan_tags-NoTags (object fs) h = refl

unfinalized_of-NoTags :
    (req : JsonRpcRequest) (depth : ℕ)
    → NoTags req.params
    → block_ref_is_unfinalized req depth ≡ true
unfolding block_ref_is_unfinalized
unfinalized_of-NoTags req depth h = elim (Option-cases (block_tag_param_index req.method)) [
  | inl e ↦ ground (arith, e, scan_tags-NoTags req.params h)
  | inr (idx, e) ↦ ground (arith, e, h idx, scan_tags-NoTags req.params h)
]

scan_some :
    (params : Value) (b : Bool)
    → and_then (as_array params) scan_tags ≡ some b
    → (j : ℕ) × (s : String) × (param_text j params ≡ some s) × (tag_finality s ≡ some b)
scan_some (array vs) b h = scan_tags-some (to_list vs) b h
scan_some null b h = absurd (cc)
scan_some (bool _) b h = absurd (cc)
scan_some (number _) b h = absurd (cc)
scan_some (string _) b h = absurd (cc)
scan_some (object _) b h = absurd (cc)

-- A request passes for finalized only if one of its parameters is the text of a final tag.
pub finalized_has_tag :
    (req : JsonRpcRequest) (depth : ℕ)
    → block_ref_is_unfinalized req depth ≡ false
    → (j : ℕ) × (s : String) × (param_text j req.params ≡ some s) × (tag_finality s ≡ some false)
unfolding block_ref_is_unfinalized
finalized_has_tag req depth h = elim (Option-cases (block_tag_param_index req.method)) [
  | inl e ↦ scan_some req.params false (ground (arith, e))
  | inr (idx, e) ↦ elim (Option-cases (param_text idx req.params)) [
    | inl k ↦ scan_some req.params false (ground (arith, e, k))
    | inr (s, k) ↦ elim (Option-cases (tag_finality s)) [
      | inl g ↦ scan_some req.params false (ground (arith, e, k, g))
      | inr (b, g) ↦ (idx, s, k, ground (arith, e, k, g))
    ]
  ]
]

-- A request with a final tag passes for finalized as the client sent it, and for unfinalized once
-- the tag is resolved to a block number, if no other parameter is a tag.
pub resolve_loses_finality :
    (req : JsonRpcRequest) (l d depth idx : ℕ) (t r : String)
    → block_tag_param_index req.method ≡ some idx
    → param_text idx req.params ≡ some t
    → tag_finality t ≡ some false
    → resolve_tag l d t ≡ some r
    → ((j : ℕ) → j ≢ idx → and_then (param_text j req.params) tag_finality ≡ none)
    → (block_ref_is_unfinalized req depth ≡ false)
      × (block_ref_is_unfinalized (resolve_block_tags req l d) depth ≡ true)
unfolding block_ref_is_unfinalized
resolve_loses_finality req l d depth idx t r h k f g others = (
  rw (h, block_ref_is_unfinalized) (rw (k, f)),
  rw (resolve_tagged req l d idx t r h k g)
      (unfinalized_of-NoTags (record req { params = set_param idx r req.params }) depth untagged),
)
  where
    untagged : NoTags (set_param idx r req.params)
    untagged j = elim (ℕ_discrete idx j) [
      | yes e ↦ rw (← e, param_text-set_self idx req.params t r k) (resolve_tag_fix l d l d t r g).1
      | no ne ↦ rw (param_text-set_ne idx j req.params r ne) (others j (λ q. ne (sym q)))
    ]
