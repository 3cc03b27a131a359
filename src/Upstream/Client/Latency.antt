-- ===== src/Upstream/Client/Latency.antt =====
-- The moving average of the latency stays between the old value and the new measurement.
use poolbeg.Prelude.{ℕ, ◌*◌, ◌≤◌, ◌<◌, arith, min, max, u64_mod}
use poolbeg.Upstream.Client.{ema}

-- As long as ten times the values fit in 64 bits, the new average lies between the old one and the
-- measurement.
pub ema_bounds :
    (prev new_us : ℕ)
    → prev * 10 < u64_mod
    → new_us * 10 < u64_mod
    → (min prev new_us ≤ ema prev new_us) × (ema prev new_us ≤ max prev new_us)
unfolding ema
ema_bounds prev new_us h k = ground arith
