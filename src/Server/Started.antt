-- ===== src/Server/Started.antt =====
-- What a server that has started looks like.
use mathlib.Core.Option
use poolbeg.Prelude.{
  ℕ, zero, suc, ◌+◌, ◌≡◌, refl, sym, ap, subst, ◌∙◌, ◌⊎◌, inl, inr, Bool, true, ◌&&◌, List, [], ◌∷◌,
  ◌++◌, Option, none, some, String, map, length, get_elem?, Bool-cases, arith, All, some_bound,
  some_mapped,
}
use poolbeg.Value.{Value}
use poolbeg.Config.{Config, ChainConfig, UpstreamConfig}
use poolbeg.Config.Routes.{validate}
use poolbeg.Config.Load.Outcomes.{load-validate}
use poolbeg.Config.Sections.{ConfigSection, from_str}
use poolbeg.Config.Load.{LoadError, Loaded, loaded, failed, load}
use poolbeg.Middleware.RateLimit.{RateLimiter}
use poolbeg.Upstream.Manager
use poolbeg.Upstream.Manager.{Manager, new_clients}
use poolbeg.Upstream.Client
use poolbeg.Upstream.Client.{UpstreamClient}
use poolbeg.Upstream.PublicEndpoints.{Fetched, resolve_auto_public}
use poolbeg.Upstream.PublicEndpoints.Injected.{validate-resolve_auto_public}
use poolbeg.Server.{
  Web, Laws, Startup, Server, Incoming, Route, Target, health_check, metrics, rpc, ws, chain_routes,
  route_table, new_managers, setup, Serving, metrics_table, socket_address, run, launch, respond,
  handled,
}
use poolbeg.Server.Guarded.{respond-IsAdmitted}

-- Every step of the start that can fail has not.
new_clients-length :
    (builds : UpstreamConfig → Bool) (retry now : ℕ) (us : List UpstreamConfig)
    (cs : List UpstreamClient)
    → new_clients builds retry now us ≡ some cs
    → length cs ≡ length us
unfolding new_clients
new_clients-length builds retry now [] cs e = ground arith
new_clients-length builds retry now (u ∷ us) cs e = elim (Bool-cases (builds u)) [
  | inr broken ↦ absurd (ground arith)
  | inl fine ↦
      let (rest, there, same) =
        some_mapped (λ r. Client.new u retry now ∷ r) (new_clients builds retry now us) cs
          (built fine) in
      subst (λ l. length l ≡ suc (length us)) same
        (ap suc (new_clients-length builds retry now us rest there))
]
  where
    built :
        builds u ≡ true
        → Option.map (λ r. Client.new u retry now ∷ r) (new_clients builds retry now us) ≡ some cs
    built fine = ground arith

new-length :
    (builds : UpstreamConfig → Bool) (now : ℕ) (c : ChainConfig) (m : Manager)
    → Manager.new builds now c ≡ some m
    → length m.upstreams ≡ length c.upstreams
unfolding Manager.new
new-length builds now c m e =
    let (us, there, same) =
      some_mapped (λ us. record { upstreams = us; strategy = c.strategy; counter = 0 })
        (new_clients builds c.disabled_retry_interval now c.upstreams) m e in
    ap (λ x. length x.upstreams) (sym same)
    ∙ new_clients-length builds c.disabled_retry_interval now c.upstreams us there

new_managers-sizes :
    (st : Startup) (cs : List ChainConfig) (ms : List Manager)
    → new_managers st cs ≡ some ms
    → map (λ m. length m.upstreams) ms ≡ map (λ c. length c.upstreams) cs
unfolding new_managers
new_managers-sizes st [] ms e = let same : [] ≡ ms = ground arith in rw⁻¹ same
new_managers-sizes st (c ∷ cs) ms e =
    let (m, one, later) = some_bound (Manager.new st.client_builds st.now c) _ ms e in
    let (rest, others, last) = some_bound (new_managers st cs) _ ms later in
    let same : m ∷ rest ≡ ms = ground arith in
    subst
      (λ l. map (λ x. length x.upstreams) l ≡ length c.upstreams ∷ map (λ x. length x.upstreams) cs)
      same
      (rw (new-length st.client_builds st.now c m one) (rw (new_managers-sizes st cs rest others)))

setup-inside :
    (w : Web) (st : Startup) (config : Config) (server : Server)
    → setup w st config ≡ some server
    → (server.config ≡ config)
      × (new_managers st config.chains ≡ some server.chain_managers)
      × (w.router (route_table config.chains) ≡ some server.routes)
unfolding setup
setup-inside w st config server e = elim (Bool-cases (st.metrics_ready && st.redis_connects)) [
  | inr broken ↦ absurd (ground arith)
  | inl fine ↦
      let (ms, managed, later) =
        some_bound (new_managers st config.chains) _ server (rw (fine, setup) at e) in
      let (f, routed, last) = some_bound (w.router (route_table config.chains)) _ server later in
      (ground arith, ground arith, ground arith)
]

-- The chain of a handler.
abbrev pub chain_of : Target → Option ℕ
chain_of health_check = none
chain_of metrics = none
chain_of (rpc i) = some i
chain_of (ws i) = some i

-- The route leads to a chain with its path, where `chains` are the chains from `idx` on.
abbrev Leads : ℕ → List ChainConfig → Route → Type 0
Leads idx chains route =
    (i : ℕ)
    → chain_of route.target ≡ some i
    → (j : ℕ) × (c : ChainConfig) × (i ≡ idx + j)
      × (get_elem? chains j ≡ some c)
      × (route.path ≡ c.route)

Leads-cons :
    (idx : ℕ) (c : ChainConfig) (cs : List ChainConfig) (r : Route)
    → Leads (suc idx) cs r
    → Leads idx (c ∷ cs) r
Leads-cons idx c cs r h i e =
    let (j, d, at, there, path) = h i e in (suc j, d, omega (arith, at), there, path)

All-Leads-cons :
    (idx : ℕ) (c : ChainConfig) (cs : List ChainConfig) (rs : List Route)
    → All (Leads (suc idx) cs) rs
    → All (Leads idx (c ∷ cs)) rs
All-Leads-cons idx c cs [] h = tt
All-Leads-cons idx c cs (r ∷ rs) (h, hs) = (Leads-cons idx c cs r h, All-Leads-cons idx c cs rs hs)

chain_routes-Leads : (idx : ℕ) (cs : List ChainConfig) → All (Leads idx cs) (chain_routes idx cs)
unfolding chain_routes
chain_routes-Leads idx [] = tt
chain_routes-Leads idx (c ∷ cs) = (
  (λ i e. (0, c, ground arith, refl, refl)),
  (
    (λ i e. (0, c, ground arith, refl, refl)),
    All-Leads-cons idx c cs (chain_routes (suc idx) cs) (chain_routes-Leads (suc idx) cs),
  ),
)

route_table-Leads : (cs : List ChainConfig) → All (Leads 0 cs) (route_table cs)
unfolding route_table
route_table-Leads cs = ((λ i e. absurd (ground arith)), chain_routes-Leads 0 cs)

All-middle :
    (P : Route → Type 0) (before after : List Route) (r : Route)
    → All P (before ++ (r ∷ after))
    → P r
All-middle P [] after r (h, _) = h
All-middle P (b ∷ before) after r (_, h) = All-middle P before after r h

-- Two lists with the same sizes are indexed alike.
same_range :
    (ms : List Manager) (cs : List ChainConfig) (j : ℕ) (c : ChainConfig)
    → map (λ m. length m.upstreams) ms ≡ map (λ c. length c.upstreams) cs
    → get_elem? cs j ≡ some c
    → (m : Manager) × (get_elem? ms j ≡ some m) × (length m.upstreams ≡ length c.upstreams)
same_range [] [] j c e there = absurd (cc)
same_range [] (d ∷ cs) j c e there = absurd (cc)
same_range (m ∷ ms) [] j c e there = absurd (cc)
same_range (m ∷ ms) (d ∷ cs) zero c e there = (m, refl, ground (arith, e, there))
same_range (m ∷ ms) (d ∷ cs) (suc j) c e there = same_range ms cs j c (ground (arith, e)) there

Loaded-cases : (l : Loaded) → ((c : Config) × (l ≡ loaded c)) ⊎ ((e : LoadError) × (l ≡ failed e))
Loaded-cases (loaded c) = inl (c, refl)
Loaded-cases (failed e) = inr (e, refl)

module _ (w : Web) (st : Startup) (env : String → Option String)
    (yaml : String → Option ConfigSection) (raw : Option String) (fetched : Fetched)
    (serving : Serving) where
  run-setup :
      (config : Config) → run w st config ≡ some serving → setup w st config ≡ some serving.server
  unfolding run
  run-setup config e =
      let (app, made, later) = some_bound (setup w st config) _ serving e in
      let (f, routed, last) = some_bound (w.router (metrics_table config)) _ serving later in
      elim (Bool-cases (st.binds (socket_address config.server.address config.server.port))) [
        | inr bad ↦ absurd (ground arith)
        | inl fine ↦ let same : app ≡ serving.server = ground arith in made ∙ ap some same
      ]

  launch-inside :
      launch w st env yaml raw fetched ≡ some serving
      → (config : Config) × (chains : List ChainConfig) × (load env (from_str yaml) raw
          ≡ loaded config)
        × (resolve_auto_public fetched config.chains ≡ some chains)
        × (setup w st (record config { chains = chains }) ≡ some serving.server)
  unfolding launch
  launch-inside e = elim (Loaded-cases (load env (from_str yaml) raw)) [
    | inr (err, bad) ↦ absurd (ground arith)
    | inl (config, good) ↦
        let (chains, completed, later) =
          some_bound (resolve_auto_public fetched config.chains) _ serving
            (rw (good, launch) at e) in
        (config, chains, good, completed, run-setup (record config { chains = chains }) later)
  ]

  -- A server that has started serves a configuration that `validate` accepts: the loaded one, completed.
  pub launch-validate :
      launch w st env yaml raw fetched ≡ some serving → validate serving.server.config.chains ≡ none
  launch-validate e =
      let (config, chains, good, completed, later) = launch-inside e in
      let (same, _, _) =
        setup-inside w st (record config { chains = chains }) serving.server later in
      subst (λ c. validate c.chains ≡ none) (sym same)
        (validate-resolve_auto_public fetched config.chains chains
          (load-validate env (from_str yaml) raw config good) completed)

  -- A request that comes to a handler of a chain comes to a chain of the configuration, whose route fits
  -- its path and whose manager is there with a client for each upstream: the handlers index the managers
  -- within their range, whatever requests were answered before.
  pub launch-in_range :
      (law : Laws w)
      → launch w st env yaml raw fetched ≡ some serving
      → (from_slice : String → Option Value) (limiter : RateLimiter) (now : ℕ) (req : Incoming)
        (t : Target) (idx : ℕ)
      → chain_of t ≡ some idx
      → (respond w from_slice (record serving.server { rate_limiter = limiter }) now req).1
        ≡ handled t
      → (m : Manager) × (c : ChainConfig) × (get_elem? serving.server.chain_managers idx ≡ some m)
        × (get_elem? serving.server.config.chains idx ≡ some c)
        × (length m.upstreams ≡ length c.upstreams)
        × (law.fits c.route req.head.path ≡ true)
  launch-in_range law e from_slice limiter now req t idx chain h =
      let (config, chains, good, completed, later) = launch-inside e in
      let (same, managed, table) =
        setup-inside w st (record config { chains = chains }) serving.server later in
      let (_, _, _, _, found) =
        respond-IsAdmitted w from_slice (record serving.server { rate_limiter = limiter }) now req t
          h in
      let (before, after, route, split, target, fit) =
        law.routed (route_table chains) serving.server.routes req t table found in
      let (j, c, at, there, path) =
        All-middle (Leads 0 chains) before after route
          (subst (All (Leads 0 chains)) split (route_table-Leads chains)) idx
          (ap chain_of target ∙ chain) in
      let (m, here, sizes) =
        same_range serving.server.chain_managers chains j c
          (new_managers-sizes st chains serving.server.chain_managers managed) there in
      let index : idx ≡ j = omega (arith, at) in
      (
        m,
        c,
        ap (get_elem? serving.server.chain_managers) index ∙ here,
        ap (λ i. get_elem? serving.server.config.chains i) index
            ∙ (ap (λ x. get_elem? x.chains j) same ∙ there),
        sizes,
        subst (λ p. law.fits p req.head.path ≡ true) path fit,
      )
