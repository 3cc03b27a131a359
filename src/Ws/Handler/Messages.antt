-- ===== src/Ws/Handler/Messages.antt =====
-- What the clean-up leaves of a connection's count.
use poolbeg.Prelude.{ℕ, ◌<◌, ◌≡◌, Bool, true, All, u64_mod, arith}
use poolbeg.Ws.Subscription.Dispatch.{remove_client_subscriptions-live}
use poolbeg.Ws.Handler.{Connection, clean_up}

-- If the client's channel is still open at the clean-up, the clean-up takes nothing from the chain's
-- count of subscriptions, although the connection is gone.
pub clean_up-live :
    {C : Type 0} (live : ℕ → Bool) (c : Connection C)
    → All (λ p. live p.1.tx ≡ true) c.subscriptions
    → c.ws_subscriptions < u64_mod
    → (clean_up live c).ws_subscriptions ≡ c.ws_subscriptions
unfolding clean_up
clean_up-live live c all small =
    rw (remove_client_subscriptions-live live c.subscriptions all, clean_up) (omega (arith, small))
