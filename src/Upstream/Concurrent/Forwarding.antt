-- ===== src/Upstream/Concurrent/Forwarding.antt =====
-- The subscriber, when the tracker does nothing meanwhile.
use poolbeg.Prelude.{
  ℕ, ◌≡◌, refl, ap, false, ◌||◌, List, [], ◌∷◌, String, str_eq, leb, ◌==◌, Option-cases, Bool-cases,
  inl, inr,
}
use poolbeg.Rpc.Codec.{Codec}
use poolbeg.Cache.Redis.{Redis}
use poolbeg.Upstream.Tracker.{BlockEvent, new_block, Tracking}
use poolbeg.Upstream.Subscriber.{
  Frame, text, ping, close, other, failed, header_in, header_height, header_hash,
  forward_notifications,
}
use poolbeg.Upstream.Concurrent.{
  State, Poller, away, listening, Action, framed, announced, ended, hear, act, run,
}

-- The frames of one connection, each with what follows it, and its end.
abbrev pub one_connection : List Frame → List Action
one_connection [] = ended ∷ []
one_connection (f ∷ fs) = framed f ∷ announced ∷ one_connection fs

module _ (r : Redis) (codec : Codec) (chain_id : ℕ) (sub_id : String) (p : Poller) where
  abbrev pub departed : Tracking r.State → ℕ → State r.State
  departed s latest = record {
    tracking = record s { latest_block_number = latest; ws_connected = false };
    poller = p;
    listener = away;
  }

  one_connection-departed :
      (fs : List Frame) (s : Tracking r.State) (latest : ℕ)
      → run r codec chain_id (departed s latest) (one_connection fs) ≡ (departed s latest, [])
  unfolding run act
  one_connection-departed [] s latest = refl
  one_connection-departed (f ∷ fs) s latest = one_connection-departed fs s latest

  -- A connection that the tracker does not interrupt does what `forward_notifications` does, and leaves
  -- the shared flag down.
  pub one_connection-forward_notifications :
      (fs : List Frame) (s : Tracking r.State) (last : ℕ)
      → run r codec chain_id
          (record { tracking = s; poller = p; listener = listening sub_id last })
          (one_connection fs)
        ≡ (
          departed s
              (forward_notifications codec chain_id sub_id fs last
                s.latest_block_number).latest_block_number,
          (forward_notifications codec chain_id sub_id fs last s.latest_block_number).events,
        )
  unfolding run act hear forward_notifications
  one_connection-forward_notifications [] s last = refl
  one_connection-forward_notifications (text t ∷ fs) s last =
      let same = one_connection-forward_notifications fs s last in
      elim (Option-cases (header_in codec sub_id t)) [
        | inl e ↦ rw (e, hear) (rw (e, forward_notifications) same)
        | inr (header, e) ↦
            elim (Bool-cases (header_height header == 0 || str_eq (header_hash header) "")) [
              | inl f ↦ rw (e, hear) (rw (e, forward_notifications) (rw f same))
              | inr f ↦ elim (Bool-cases (leb (header_height header) last)) [
                | inl g ↦ rw (e, hear) (rw (e, forward_notifications) (rw f (rw g same)))
                | inr g ↦
                    rw (e, hear)
                      (rw (e, forward_notifications)
                        (rw f (
                          rw g (
                            ap
                              (λ (x : State r.State × List BlockEvent). (
                                x.0,
                                new_block chain_id (header_height header) (header_hash header)
                                      header
                                    ∷ x.1,
                              ))
                              (one_connection-forward_notifications fs
                                (record s { latest_block_number = header_height header })
                                (header_height header))))))
              ]
            ]
      ]
  one_connection-forward_notifications (close ∷ fs) s last =
      one_connection-departed fs s s.latest_block_number
  one_connection-forward_notifications (failed ∷ fs) s last =
      one_connection-departed fs s s.latest_block_number
  one_connection-forward_notifications (ping ∷ fs) s last =
      one_connection-forward_notifications fs s last
  one_connection-forward_notifications (other ∷ fs) s last =
      one_connection-forward_notifications fs s last
