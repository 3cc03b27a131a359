-- ===== src/Server/Running/Answered.antt =====
-- From the start of the server to the answer of a body: the managers that `setup` built, while the server
-- runs.
use poolbeg.Prelude.{
  ℕ, zero, suc, ◌≡◌, refl, sym, subst, ◌∙◌, List, [], ◌∷◌, map, false, Option, some, String,
  get_elem?, set, get_elem?-set_ne, get_elem?-set_there, length, ltb, Option-cases, Bool-cases, inl,
  inr,
}
use native.Mathlib.Decide.{ℕ_discrete}
use poolbeg.Value.{Value}
use poolbeg.Config.{Config, ChainConfig}
use poolbeg.Config.Sections.{ConfigSection}
use poolbeg.Middleware.RateLimit.{RateLimiter}
use poolbeg.Rpc.Types.{RpcResponse}
use poolbeg.Rpc.Codec.{Codec}
use poolbeg.Rpc.Batch.Kept.{process_batch-keeps}
use poolbeg.Rpc.Handler.{World, Setup, Service, dedup_key, process_logged, parse, handle_rpc}
use poolbeg.Rpc.Handler.Single.{process_single_request-alone}
use poolbeg.Rpc.Handler.Logged.{RpcRequest-cases}
use poolbeg.Rpc.Handler.Whole.{handle_rpc-answers}
use poolbeg.Cache.Redis.{Redis}
use poolbeg.Upstream.Manager.{Manager}
use poolbeg.Upstream.PublicEndpoints.{Fetched}
use poolbeg.Upstream.Tracker.{Poll}
use poolbeg.Server.{Web, Laws, Startup, Incoming, Serving, launch, respond, handled, rpc}
use poolbeg.Server.Started.{launch-in_range}
use poolbeg.Server.Running.{
  Chain, Running, service_of, running_of, Step, body, round, setup_of, answer_body, follow, step,
  steps,
}

-- The chain is there.
abbrev Has : List Chain → ℕ → Type 0
Has chains idx = (ch : Chain) × (get_elem? chains idx ≡ some ch)

Has-set :
    (chains : List Chain) (i idx : ℕ) (new : Chain) → Has chains idx → Has (set chains i new) idx
Has-set chains i idx new (ch, here) = elim (ℕ_discrete i idx) [
  | yes at ↦ (
    new,
    subst (λ k. get_elem? (set chains k new) idx ≡ some new) (sym at)
        (get_elem?-set_there chains idx new here),
  )
  | no ne ↦ (ch, get_elem?-set_ne chains {i = i} {j = idx} new ne ∙ here)
]

Has-map :
    (f : Manager → Chain) (ms : List Manager) (idx : ℕ) (m : Manager)
    → get_elem? ms idx ≡ some m
    → Has (map f ms) idx
Has-map f [] idx m e = absurd (cc)
Has-map f (n ∷ ms) zero m e = (f n, refl)
Has-map f (n ∷ ms) (suc idx) m e = Has-map f ms idx m e

module _ (r : Redis) (codec : Codec) where
  -- One body after the other: none in flight is left behind.
  handle_rpc-alone :
      (world : World) (setup : Setup) (s : Service r.State) (text : String)
      → setup.server.debug_upstream ≡ false
      → s.in_flight ≡ []
      → (handle_rpc r codec world setup s text).0.in_flight ≡ []
  unfolding handle_rpc
  handle_rpc-alone world setup s text off alone = elim (RpcRequest-cases (parse world text)) [
    | inl e ↦ rw (e, handle_rpc) alone
    | inr (inl (req, e)) ↦
        rw (e, handle_rpc) (process_single_request-alone r codec world setup s req off alone).0
    | inr (inr (reqs, e)) ↦ elim (Bool-cases (ltb setup.server.max_batch_size (length reqs))) [
      | inl big ↦ rw (e, handle_rpc) (rw big alone)
      | inr fits ↦
          rw (e, handle_rpc)
            (rw fits (
              process_batch-keeps (process_logged r codec world setup) (λ t. t.in_flight ≡ [])
                (λ t req i. (process_single_request-alone r codec world setup t req off i).0)
                (dedup_key codec setup) s reqs alone))
    ]
  ]

module _ (r : Redis) (codec : Codec) (world : ℕ → World) (config : Config) (idx : ℕ)
    (off : config.server.debug_upstream ≡ false) where
  -- No request is in flight, and the chain is there.
  abbrev Ready : Running r.State → Type 0
  Ready s = (s.in_flight ≡ []) × Has s.chains idx

  answer_body-Ready :
      (s : Running r.State) (i : ℕ) (text : String)
      → Ready s
      → Ready (answer_body r codec world config s i text).0
  unfolding answer_body
  answer_body-Ready s i text (alone, there) = elim (Option-cases (get_elem? config.chains i)) [
    | inl e ↦ rw (e, answer_body) (alone, there)
    | inr (chain, e) ↦ elim (Option-cases (get_elem? s.chains i)) [
      | inl g ↦ rw (e, answer_body) (rw g (alone, there))
      | inr (ch, g) ↦
          rw (e, answer_body)
            (rw g (
              handle_rpc-alone r codec (world i) (setup_of r codec world config chain)
                  (service_of s ch) text off alone,
              Has-set s.chains i idx _ there,
            ))
    ]
  ]

  follow-Ready :
      (s : Running r.State) (i : ℕ) (x : Poll)
      → Ready s
      → Ready (follow r codec world config s i x).0
  unfolding follow
  follow-Ready s i x (alone, there) = elim (Option-cases (get_elem? config.chains i)) [
    | inl e ↦ rw (e, follow) (alone, there)
    | inr (chain, e) ↦ elim (Option-cases (get_elem? s.chains i)) [
      | inl g ↦ rw (e, follow) (rw g (alone, there))
      | inr (ch, g) ↦ rw (e, follow) (rw g (alone, Has-set s.chains i idx _ there))
    ]
  ]

  step-Ready : (s : Running r.State) (a : Step) → Ready s → Ready (step r codec world config s a)
  unfolding step
  step-Ready s (body i text) ok = answer_body-Ready s i text ok
  step-Ready s (round i x) ok = follow-Ready s i x ok

  steps-Ready :
      (acts : List Step) (s : Running r.State) → Ready s → Ready (steps r codec world config s acts)
  unfolding steps
  steps-Ready [] s ok = ok
  steps-Ready (a ∷ acts) s ok = steps-Ready acts (step r codec world config s a) (step-Ready s a ok)

  answer_body_total :
      (s : Running r.State) (text : String) (chain : ChainConfig)
      → get_elem? config.chains idx ≡ some chain
      → config.server.debug_client ≡ false
      → Ready s
      → (resp : RpcResponse) × ((answer_body r codec world config s idx text).1 ≡ some resp)
  unfolding answer_body
  answer_body_total s text chain listed quiet (alone, (ch, there)) =
      let (resp, made) =
        handle_rpc-answers r codec (world idx) (setup_of r codec world config chain)
          (service_of s ch) text quiet off alone in
      (resp, rw (listed, answer_body) (rw there made))

module _ (r : Redis) (codec : Codec) (world : ℕ → World) (w : Web) (law : Laws w) (st : Startup)
    (env : String → Option String) (yaml : String → Option ConfigSection) (raw : Option String)
    (fetched : Fetched) (serving : Serving) where
  -- A server that has started, with neither `debug_client` nor `debug_upstream`, and with bodies and rounds of trackers one after
  -- the other: after any number of these, on any chains, a request that the layers and the router let
  -- through to `handle_rpc` is answered; no index is out of range, and the handler does not panic.
  pub launch-answer_body :
      launch w st env yaml raw fetched ≡ some serving
      → serving.server.config.server.debug_client ≡ false
      → serving.server.config.server.debug_upstream ≡ false
      → (cache : r.State) (acts : List Step) (from_slice : String → Option Value)
        (limiter : RateLimiter) (now : ℕ) (req : Incoming) (idx : ℕ)
      → (respond w from_slice (record serving.server { rate_limiter = limiter }) now req).1
        ≡ handled (rpc idx)
      → (resp : RpcResponse) × ((answer_body r codec world serving.server.config
            (steps r codec world serving.server.config (running_of cache serving.server) acts)
            idx
            req.body).1
          ≡ some resp)
  unfolding running_of
  launch-answer_body e quiet off cache acts from_slice limiter now req idx passed =
      let config = serving.server.config in
      let (m, chain, here, listed, _, _) =
        launch-in_range w st env yaml raw fetched serving law e from_slice limiter now req (rpc idx)
          idx refl passed in
      let begun = running_of cache serving.server in
      let ready : Ready r codec world config idx off begun =
        (refl, Has-map _ serving.server.chain_managers idx m here) in
      answer_body_total r codec world config idx off (steps r codec world config begun acts)
        req.body chain listed quiet (steps-Ready r codec world config idx off acts begun ready)
