-- ===== src/Server/Running/Tracked.antt =====
-- What a tracker announces and what the handler of the same chain answers.
use poolbeg.Prelude.{
  ℕ, ◌<◌, ◌≡◌, refl, ap, sym, subst, ◌∙◌, ◌≢◌, false, List, [], ◌∷◌, some, String, get_elem?, set,
  get_elem?-set_ne, get_elem?-set_there, to_hex, All, Option-cases, inl, inr, arith,
}
use native.Mathlib.Decide.{ℕ_discrete}
use poolbeg.Value.{Value, string}
use poolbeg.Config.{Config, ChainConfig}
use poolbeg.Rpc.Types.{JsonRpcRequest, single, single as one, success, is_method_blocked}
use poolbeg.Rpc.Codec.{Codec}
use poolbeg.Rpc.Handler.{
  World, Setup, Service, parse, try_memory_intercept, logged, process_single_request, handle_rpc,
}
use poolbeg.Cache.Redis.{Redis}
use poolbeg.Upstream.Manager.{latest_block_number}
use poolbeg.Upstream.Tracker.{Poll}
use poolbeg.Upstream.Tracker.Heads.{heights}
use poolbeg.Upstream.Tracker.Latest.{poll-announced}
use poolbeg.Server.Running.{
  Following, Chain, Running, service_of, tracker_of, Step, body, round, setup_of, answer_body,
  follow, step, steps,
}

-- The step is no round of the tracker of the chain.
abbrev pub LeavesTracker : ℕ → Step → Type 0
LeavesTracker idx (body i text) = Unit
LeavesTracker idx (round i x) = i ≢ idx

-- The chain `idx` is there, and its tracker has this state.
abbrev Follows : List Chain → ℕ → Following → Type 0
Follows chains idx f = (ch : Chain) × (get_elem? chains idx ≡ some ch) × (ch.following ≡ f)

Follows-set :
    (chains : List Chain) (i idx : ℕ) (ch new : Chain) (f : Following)
    → get_elem? chains i ≡ some ch
    → (i ≡ idx → new.following ≡ ch.following)
    → Follows chains idx f
    → Follows (set chains i new) idx f
Follows-set chains i idx ch new f here same (old, there, e) = elim (ℕ_discrete i idx) [
  | yes at ↦
      let both : some ch ≡ some old = sym here ∙ (ap (get_elem? chains) at ∙ there) in
      let equal : ch ≡ old = ground (arith, both) in
      (
        new,
        subst (λ k. get_elem? (set chains i new) k ≡ some new) at
            (get_elem?-set_there chains i new here),
        same at ∙ (ap (λ c. c.following) equal ∙ e),
      )
  | no ne ↦ (old, get_elem?-set_ne chains {i = i} {j = idx} new ne ∙ there, e)
]

module _ (r : Redis) (codec : Codec) where
  nonzero_some : (h : ℕ) → 0 < h → latest_block_number h ≡ some h
  unfolding latest_block_number
  nonzero_some h high = ground (arith, high)

  intercepted :
      (chain : ChainConfig) (latest h : ℕ) (method : String) (id : Value)
      → method ≡ "eth_blockNumber"
      → 0 < h
      → latest ≡ h
      → try_memory_intercept chain latest method id ≡ some (success id (string (to_hex h)))
  unfolding try_memory_intercept
  intercepted chain latest h method id called high same =
      rw called (rw same (rw (nonzero_some h high) refl))

  block_number_answered :
      (world : World) (setup : Setup) (s : Service r.State) (text : String) (req : JsonRpcRequest)
      (h : ℕ)
      → parse world text ≡ some (single req)
      → req.method ≡ "eth_blockNumber"
      → is_method_blocked req.method setup.server.blocked_methods ≡ false
      → setup.server.debug_client ≡ false
      → 0 < h
      → s.latest ≡ h
      → (handle_rpc r codec world setup s text).1 ≡ some (one (success req.id (string (to_hex h))))
  unfolding handle_rpc process_single_request logged
  block_number_answered world setup s text req h read called open_to quiet high same =
      let known = intercepted setup.chain s.latest h req.method req.id called high same in
      rw (read, handle_rpc) (rw (open_to, process_single_request) (rw known (rw quiet refl)))

module _ (r : Redis) (codec : Codec) (world : ℕ → World) (config : Config) where
  answer_body-Follows :
      (s : Running r.State) (i : ℕ) (text : String) (idx : ℕ) (f : Following)
      → Follows s.chains idx f
      → Follows (answer_body r codec world config s i text).0.chains idx f
  unfolding answer_body
  answer_body-Follows s i text idx f h = elim (Option-cases (get_elem? config.chains i)) [
    | inl e ↦ rw (e, answer_body) h
    | inr (chain, e) ↦ elim (Option-cases (get_elem? s.chains i)) [
      | inl g ↦ rw (e, answer_body) (rw g h)
      | inr (ch, g) ↦ rw (e, answer_body) (rw g (Follows-set s.chains i idx ch _ f g (λ _. refl) h))
    ]
  ]

  follow-Follows :
      (s : Running r.State) (i : ℕ) (x : Poll) (idx : ℕ) (f : Following)
      → i ≢ idx
      → Follows s.chains idx f
      → Follows (follow r codec world config s i x).0.chains idx f
  unfolding follow
  follow-Follows s i x idx f ne h = elim (Option-cases (get_elem? config.chains i)) [
    | inl e ↦ rw (e, follow) h
    | inr (chain, e) ↦ elim (Option-cases (get_elem? s.chains i)) [
      | inl g ↦ rw (e, follow) (rw g h)
      | inr (ch, g) ↦
          rw (e, follow) (rw g (Follows-set s.chains i idx ch _ f g (λ at. absurd (ne at)) h))
    ]
  ]

  step-Follows :
      (s : Running r.State) (a : Step) (idx : ℕ) (f : Following)
      → LeavesTracker idx a
      → Follows s.chains idx f
      → Follows (step r codec world config s a).chains idx f
  unfolding step
  step-Follows s (body i text) idx f _ h = answer_body-Follows s i text idx f h
  step-Follows s (round i x) idx f ne h = follow-Follows s i x idx f ne h

  steps-Follows :
      (acts : List Step) (s : Running r.State) (idx : ℕ) (f : Following)
      → All (LeavesTracker idx) acts
      → Follows s.chains idx f
      → Follows (steps r codec world config s acts).chains idx f
  unfolding steps
  steps-Follows [] s idx f away h = h
  steps-Follows (a ∷ acts) s idx f (here, away) h =
      steps-Follows acts (step r codec world config s a) idx f away (step-Follows s a idx f here h)

  -- The round that announces a head leaves its number with the tracker.
  follow-announced :
      (s : Running r.State) (idx : ℕ) (x : Poll) (h : ℕ)
      → heights (follow r codec world config s idx x).1 ≡ h ∷ []
      → (0 < h)
        × ((f : Following) × (f.latest_block_number ≡ h)
            × Follows (follow r codec world config s idx x).0.chains idx f)
  unfolding follow heights
  follow-announced s idx x h e = elim (Option-cases (get_elem? config.chains idx)) [
    | inl g ↦ let wrong = rw (g, follow) at e in absurd (cc)
    | inr (chain, g) ↦ elim (Option-cases (get_elem? s.chains idx)) [
      | inl k ↦ let wrong = rw k at (rw (g, follow) at e) in absurd (cc)
      | inr (ch, k) ↦
          let sent = rw k at (rw (g, follow) at e) in
          let (positive, latest) =
            poll-announced r codec chain.chain_id chain.strategy x (tracker_of s ch) h sent in
          (
            positive,
            rw (g, follow) (rw k (_, latest, (_, get_elem?-set_there s.chains idx _ k, refl))),
          )
    ]
  ]

  -- `eth_blockNumber` in a body of its own.
  answer_body-block_number :
      (s : Running r.State) (idx : ℕ) (text : String) (chain : ChainConfig) (req : JsonRpcRequest)
      (f : Following) (h : ℕ)
      → get_elem? config.chains idx ≡ some chain
      → parse (world idx) text ≡ some (single req)
      → req.method ≡ "eth_blockNumber"
      → is_method_blocked req.method config.server.blocked_methods ≡ false
      → config.server.debug_client ≡ false
      → 0 < h
      → f.latest_block_number ≡ h
      → Follows s.chains idx f
      → (answer_body r codec world config s idx text).1
        ≡ some (one (success req.id (string (to_hex h))))
  unfolding answer_body
  answer_body-block_number s idx text chain req f h listed read called open_to quiet high latest
        (ch, there, following) =
      rw (listed, answer_body)
        (rw there (
          block_number_answered r codec (world idx) (setup_of r codec world config chain)
            (service_of s ch) text req h read called open_to quiet high
            (ap (λ x. x.latest_block_number) following ∙ latest)))

  -- From the round on that announces a head of a chain, until the next round of the tracker of the chain:
  -- a body that is a single eth_blockNumber request on the chain is answered with the head's number,
  -- whatever bodies were answered, and trackers of other chains went on, in between. The method must not be
  -- blocked, and `debug_client` not set.
  pub follow-answer_body :
      (s : Running r.State) (idx : ℕ) (x : Poll) (h : ℕ) (acts : List Step) (text : String)
      (chain : ChainConfig) (req : JsonRpcRequest)
      → heights (follow r codec world config s idx x).1 ≡ h ∷ []
      → All (LeavesTracker idx) acts
      → get_elem? config.chains idx ≡ some chain
      → parse (world idx) text ≡ some (single req)
      → req.method ≡ "eth_blockNumber"
      → is_method_blocked req.method config.server.blocked_methods ≡ false
      → config.server.debug_client ≡ false
      → (answer_body r codec world config
          (steps r codec world config (follow r codec world config s idx x).0 acts)
          idx
          text).1
        ≡ some (one (success req.id (string (to_hex h))))
  follow-answer_body s idx x h acts text chain req sent away listed read called open_to quiet =
      let (high, (f, latest, there)) = follow-announced s idx x h sent in
      let s1 = (follow r codec world config s idx x).0 in
      answer_body-block_number (steps r codec world config s1 acts) idx text chain req f h listed
        read called open_to quiet high latest (steps-Follows acts s1 idx f away there)
