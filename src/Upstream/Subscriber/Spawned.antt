-- ===== src/Upstream/Subscriber/Spawned.antt =====
-- When the task of the subscriber is started.
use poolbeg.Prelude.{
  ℕ, suc, ◌≡◌, Bool, true, not, ◌&&◌, List, [], ◌∷◌, ◌++◌, some, String, any, is_some, find_first,
  Bool-cases, Option-cases, inl, inr, arith,
}
use poolbeg.Config.{UpstreamRole}
use poolbeg.Upstream.Client.{UpstreamClient, is_healthy}
use poolbeg.Upstream.Manager.{Manager, same_role, roles_in_order}
use poolbeg.Upstream.Manager.Background.{
  Task, health_check_loop, upstream_status_loop, block_tracker, ws_subscriber, health_check_loops,
  start_tracker,
}
use poolbeg.Upstream.Subscriber.{ws_in_role, find_ws_from, find_ws_upstream}

-- `tasks` holds the task of the subscriber.
abbrev pub Subscribes : List Task → Type 0
Subscribes [] = ⊥
Subscribes (ws_subscriber ∷ ts) = Unit
Subscribes (health_check_loop i ∷ ts) = Subscribes ts
Subscribes (upstream_status_loop i ∷ ts) = Subscribes ts
Subscribes (block_tracker ∷ ts) = Subscribes ts

Subscribes-behind :
    (i : ℕ) (us : List UpstreamClient) (ts : List Task)
    → Subscribes ts
    → Subscribes (health_check_loops i us ++ ts)
unfolding health_check_loops
Subscribes-behind i [] ts h = h
Subscribes-behind i (u ∷ us) ts h = Subscribes-behind (suc i) us ts h

find_first-any :
    (p q : UpstreamClient → Bool) (us : List UpstreamClient) (found : UpstreamClient)
    → ((u : UpstreamClient) → p u ≡ true → q u ≡ true)
    → find_first p us ≡ some found
    → any q us ≡ true
find_first-any p q [] found h e = absurd (cc)
find_first-any p q (u ∷ us) found h e = elim (Bool-cases (p u)) [
  | inl here ↦ let good = h u here in ground (arith, good)
  | inr other ↦
      let rest = find_first-any p q us found h (ground (arith, e, other)) in ground (arith, rest)
]

ws_in_role-any :
    (role : UpstreamRole) (us : List UpstreamClient) (found : String × String)
    → ws_in_role role us ≡ some found
    → any (λ u. is_some u.ws_url) us ≡ true
ws_in_role-any role us found e =
    let test : UpstreamClient → Bool =
      λ u. same_role u.role role && is_healthy u && not u.disabled && is_some u.ws_url in
    elim (Option-cases (find_first test us)) [
      | inl none_there ↦ absurd (ground (arith, none_there, e))
      | inr (u, there) ↦
          find_first-any test (λ v. is_some v.ws_url) us u (λ v h. ground (arith, h)) there
    ]

find_ws_from-any :
    (roles : List UpstreamRole) (us : List UpstreamClient) (found : String × String)
    → find_ws_from roles us ≡ some found
    → any (λ u. is_some u.ws_url) us ≡ true
unfolding find_ws_from
find_ws_from-any [] us found e = absurd (cc)
find_ws_from-any (role ∷ roles) us found e = elim (Option-cases (ws_in_role role us)) [
  | inr (other, here) ↦ ws_in_role-any role us other here
  | inl missing ↦ find_ws_from-any roles us found (rw (missing, find_ws_from) at e)
]

-- If there is an upstream that the subscriber would connect to, its task is started.
start_tracker-find_ws_upstream :
    (chain_idx : ℕ) (m : Manager) (found : String × String)
    → find_ws_upstream m.upstreams ≡ some found
    → Subscribes (start_tracker chain_idx m)
unfolding start_tracker find_ws_upstream
start_tracker-find_ws_upstream chain_idx m found e =
    let there = find_ws_from-any roles_in_order m.upstreams found e in
    rw there (
      Subscribes-behind 0 m.upstreams
        (upstream_status_loop chain_idx ∷ block_tracker ∷ ws_subscriber ∷ []) tt)
