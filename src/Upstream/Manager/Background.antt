-- ===== src/Upstream/Manager/Background.antt =====
-- The tasks that a chain is started with: `start_tracker` of src/upstream/manager.rs. A health check loop
-- goes by the index of its upstream.
use poolbeg.Prelude.{ℕ, suc, List, [], ◌∷◌, ◌++◌, if◌then◌else◌, any, is_some}
use poolbeg.Upstream.Client.{UpstreamClient}
use poolbeg.Upstream.Manager.{Manager}

pub data Task : Type 0 where
  health_check_loop : (upstream : ℕ) → Task
  upstream_status_loop : (chain_idx : ℕ) → Task
  block_tracker ws_subscriber : Task

unfoldable pub health_check_loops : ℕ → List UpstreamClient → List Task
health_check_loops i [] = []
health_check_loops i (u ∷ us) = health_check_loop i ∷ health_check_loops (suc i) us

unfoldable pub start_tracker : ℕ → Manager → List Task
start_tracker chain_idx m =
    health_check_loops 0 m.upstreams
    ++ (upstream_status_loop chain_idx
        ∷ block_tracker
        ∷ (if any (λ u. is_some u.ws_url) m.upstreams then ws_subscriber ∷ [] else []))

-- The loop over the chains in `setup`.
unfoldable pub start_trackers : ℕ → List Manager → List Task
start_trackers i [] = []
start_trackers i (m ∷ ms) = start_tracker i m ++ start_trackers (suc i) ms
