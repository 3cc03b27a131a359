-- ===== src/Upstream/Subscriber/Session/Backoff.antt =====
-- How long the subscriber sleeps while nothing works.
use poolbeg.Prelude.{
  ℕ, zero, suc, ◌+◌, ◌*◌, ◌^◌, ◌<◌, ◌≡◌, ◌≢◌, refl, sym, ap, subst, ◌∙◌, List, [], ◌∷◌, some,
  get_elem?, length, map, All, min, arith,
}
use poolbeg.Config.Duration.{from_secs}
use poolbeg.Rpc.Codec.{Codec}
use poolbeg.Upstream.Subscriber.{
  Round, no_upstream, disconnected, broken, pause, min_backoff, max_backoff,
}
use poolbeg.Upstream.Subscriber.Session.{Visit, visit, run}

-- The longest backoff, or so many doublings of one second.
abbrev pub doubled : ℕ → ℕ
doubled k = min (from_secs (2 ^ k)) max_backoff

doubled_again : (k : ℕ) → min (doubled k * 2) max_backoff ≡ doubled (suc k)
doubled_again k = omega arith

pause-doubled :
    (round : Round) (k : ℕ)
    → round ≢ disconnected
    → pause round (doubled k) ≡ (doubled k, doubled (suc k))
unfolding pause
pause-doubled no_upstream k h = ap (λ b. (doubled k, b)) (doubled_again k)
pause-doubled disconnected k h = absurd (h refl)
pause-doubled broken k h = ap (λ b. (doubled k, b)) (doubled_again k)

module _ (codec : Codec) (chain_id : ℕ) where
  -- No clean disconnect.
  abbrev pub Fails : Visit → Type 0
  Fails v = (latest : ℕ) → (visit codec chain_id v latest).0 ≢ disconnected

  run-doubled :
      (vs : List Visit) (k n latest : ℕ)
      → All Fails vs
      → n < length vs
      → get_elem? (map (λ p. p.0) (run codec chain_id vs (doubled k) latest)) n
        ≡ some (doubled (k + n))
  unfolding run
  run-doubled [] k n latest h inside = absurd (omega (arith, inside))
  run-doubled (v ∷ vs) k zero latest (f, h) inside =
      ap (λ p. some p.0) (pause-doubled (visit codec chain_id v latest).0 k (f latest))
      ∙ ap (λ i. some (doubled i)) (omega arith)
  run-doubled (v ∷ vs) k (suc n) latest (f, h) inside =
      let (round, events, latest') = visit codec chain_id v latest in
      let later : suc k + n ≡ k + suc n = omega arith in
      subst
        (λ b.
          get_elem? (map (λ p. p.0) (run codec chain_id vs b latest')) n
          ≡ some (doubled (k + suc n)))
        (sym (ap (λ p. p.1) (pause-doubled round k (f latest))))
        (run-doubled vs (suc k) n latest' h (omega (arith, inside))
          ∙ ap (λ i. some (doubled i)) later)

  -- Whatever the frames, while no round ends in a clean disconnect the sleep after `n` rounds is `2 ^ n`
  -- seconds, at most a minute.
  pub run-backoff :
      (vs : List Visit) (n latest : ℕ)
      → All Fails vs
      → n < length vs
      → get_elem? (map (λ p. p.0) (run codec chain_id vs min_backoff latest)) n
        ≡ some (min (from_secs (2 ^ n)) max_backoff)
  run-backoff vs n latest h inside =
      let first : doubled 0 ≡ min_backoff = omega arith in
      let index : 0 + n ≡ n = omega arith in
      subst (λ b. get_elem? (map (λ p. p.0) (run codec chain_id vs b latest)) n ≡ some (doubled n))
        first (run-doubled vs 0 n latest h inside ∙ ap (λ i. some (doubled i)) index)
