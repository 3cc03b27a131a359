-- ===== src/Ws/Session/Leaked.antt =====
-- The chain's count of subscriptions over a whole connection.
use poolbeg.Prelude.{
  ℕ, ◌+◌, ◌-◌, ◌%◌, ◌<◌, ◌≡◌, refl, ap, ◌∙◌, ◌||◌, Bool, true, false, List, [], ◌∷◌, String, str_eq,
  if◌then◌else◌, length, All, keep, u64_mod, Bool-cases, inl, inr, arith,
}
use poolbeg.Rpc.Codec.{Codec}
use poolbeg.Rpc.Handler.{World, Setup}
use poolbeg.Cache.Redis.{Redis}
use poolbeg.Ws.Subscription.{ClientSubscription, remove_client_subscriptions}
use poolbeg.Ws.Handler.{Connection, clean_up}
use poolbeg.Ws.Handler.Messages.{clean_up-live}
use poolbeg.Ws.Session.{ClientFrame, serve_frames, handle_ws_connection}
use poolbeg.Ws.Session.Counting.{sub_id, serve_frames-IsCounted, fresh-IsCounted}

All-live :
    {tx : ℕ} (live : ℕ → Bool) (b : Bool) (subs : List (String × ClientSubscription))
    → live tx ≡ b
    → All (λ p. p.1.tx ≡ tx) subs
    → All (λ p. live p.1.tx ≡ b) subs
All-live live b [] e h = tt
All-live live b (p ∷ subs) e (own, h) = (ap live own ∙ e, All-live live b subs e h)

keep_dead :
    (live : ℕ → Bool) (subs : List (String × ClientSubscription))
    → All (λ p. live p.1.tx ≡ false) subs
    → keep (λ p. live p.1.tx) subs ≡ []
keep_dead live [] h = refl
keep_dead live (p ∷ subs) (gone, h) = rw gone (keep_dead live subs h)

clean_up-dead :
    {C : Type 0} (live : ℕ → Bool) (c : Connection C)
    → All (λ p. live p.1.tx ≡ false) c.subscriptions
    → (clean_up live c).ws_subscriptions
      ≡ (c.ws_subscriptions + (u64_mod - length c.subscriptions)) % u64_mod
unfolding clean_up remove_client_subscriptions
clean_up-dead live c h = rw (keep_dead live c.subscriptions h) (omega arith)

module _ (uuid : ℕ → String) (tx n0 : ℕ)
    (apart : (i j : ℕ) → str_eq (sub_id uuid i) (sub_id uuid j) ≡ true → i ≡ j) where
  module _ (r : Redis) (codec : Codec) (world : World) (setup : Setup)
      (to_lowercase : String → String) where
    -- Over a whole connection that begins without subscriptions, and whose identifiers differ: if the
    -- client's channel is still open at the clean-up, or a panic in a log ends the connection before it,
    -- the chain's count keeps one for each subscription that was not cancelled, and otherwise the count
    -- is what it was, as long as the subscriptions are fewer than 2 ^ 64.
    pub handle_ws_connection-count :
        (live : ℕ → Bool) (fs : List ClientFrame) (c : Connection r.State)
        → c.subscriptions ≡ []
        → c.ws_subscriptions ≡ n0
        → n0 < u64_mod
        → length (serve_frames r codec world setup to_lowercase uuid tx fs c).0.subscriptions
          < u64_mod
        → (handle_ws_connection r codec world setup to_lowercase uuid tx live fs c).ws_subscriptions
          ≡ (if (serve_frames r codec world setup to_lowercase uuid tx fs c).2 || live tx
              then (n0
                  + length
                      (serve_frames r codec world setup to_lowercase uuid tx fs c).0.subscriptions)
                % u64_mod
              else n0)
    unfolding handle_ws_connection
    handle_ws_connection-count live fs c none_yet e small few =
        let (_, _, mine, counted) =
          serve_frames-IsCounted uuid tx n0 apart r codec world setup to_lowercase fs c (
            fresh-IsCounted uuid tx n0 apart r codec world setup to_lowercase c none_yet e small) in
        let run = serve_frames r codec world setup to_lowercase uuid tx fs c in
        let end = run.0 in
        elim (Bool-cases run.2) [
          | inl crashed ↦ rw (crashed, handle_ws_connection) counted
          | inr ended ↦ elim (Bool-cases (live tx)) [
            | inl opened ↦
                rw (ended, handle_ws_connection)
                  (rw opened (
                    clean_up-live live end (All-live live true end.subscriptions opened mine)
                      (omega (arith, counted))
                    ∙ counted))
            | inr gone ↦
                rw (ended, handle_ws_connection)
                  (rw gone (
                    clean_up-dead live end (All-live live false end.subscriptions gone mine)
                    ∙ (omega (arith, counted, few, small))))
          ]
        ]
