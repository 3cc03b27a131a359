-- ===== src/Upstream/Client/Health.antt =====
-- When an upstream is disabled and when it comes back.
use poolbeg.Prelude.{
  ℕ, suc, ◌+◌, ◌-◌, ◌≤◌, ◌<◌, ◌≡◌, refl, sym, ap, ◌∙◌, All, keep, ◌⊎◌, true, false, List, [], ◌∷◌,
  ◌++◌, leb, length, arith,
}
use poolbeg.Upstream.Client.{
  UpstreamClient, record_failure, record_http_error, backoff, recent, max_backoff,
  max_consecutive_failures, max_http_errors, http_error_window, u32_mod,
}

unfoldable pub failures : UpstreamClient → List ℕ → UpstreamClient
failures u [] = u
failures u (t ∷ ts) = failures (record_failure u t) ts

failures_step :
    (u : UpstreamClient) (t : ℕ)
    → u.disabled ≡ leb max_consecutive_failures u.consecutive_failures
    → suc u.consecutive_failures < u32_mod
    → ((record_failure u t).disabled ≡ leb max_consecutive_failures (suc u.consecutive_failures))
      × ((record_failure u t).consecutive_failures ≡ suc u.consecutive_failures)
unfolding record_failure
failures_step u t d w = ground arith

failures_count :
    (u : UpstreamClient) (n : ℕ) (ts : List ℕ)
    → u.disabled ≡ leb max_consecutive_failures n
    → u.consecutive_failures ≡ n
    → n + length ts < u32_mod
    → (failures u ts).disabled ≡ leb max_consecutive_failures (n + length ts)
unfolding failures
failures_count u n [] d z w = d ∙ ap (leb max_consecutive_failures) (omega arith)
failures_count u n (t ∷ ts) d z w =
    let (d', z') =
      failures_step u t (d ∙ ap (leb max_consecutive_failures) (sym z)) (omega arith) in
    failures_count (record_failure u t) (suc n) ts
      (d' ∙ ap (λ k. leb max_consecutive_failures (suc k)) z) (z' ∙ ap suc z) (omega arith)
    ∙ ap (leb max_consecutive_failures) (omega arith)

-- An enabled upstream without failures is disabled by a run of failures exactly if there are six or
-- more of them.
pub failures-disable :
    (u : UpstreamClient) (ts : List ℕ)
    → u.disabled ≡ false
    → u.consecutive_failures ≡ 0
    → length ts < u32_mod
    → (failures u ts).disabled ≡ leb max_consecutive_failures (length ts)
failures-disable u ts d z w =
    failures_count u 0 ts d z (omega arith) ∙ ap (leb max_consecutive_failures) (omega arith)

-- After a failure the next check is never later than the longest backoff, or than the retry interval
-- if the upstream is disabled.
pub record_failure_backoff :
    (u : UpstreamClient) (now : ℕ)
    → ((record_failure u now).next_check_at ≤ now + max_backoff)
      ⊎ ((record_failure u now).next_check_at ≡ now + u.disabled_retry_interval)
unfolding record_failure backoff
record_failure_backoff u now = ground arith

-- The errors recorded one after another at the given times.
unfoldable pub http_errors : UpstreamClient → List ℕ → UpstreamClient
http_errors u [] = u
http_errors u (t ∷ ts) = http_errors (record_http_error u t) ts

-- Every time lies between the start of a window and its end.
abbrev pub Within : ℕ → ℕ → List ℕ → Type 0
Within start end ts = All (λ t. (start ≤ t) × (t ≤ end)) ts

-- How many of the recorded errors are no older than `start`.
abbrev since : ℕ → List ℕ → ℕ
since start xs = length (keep (λ t. leb start t) xs)

since-append :
    (start : ℕ) (xs ys : List ℕ) → since start (xs ++ ys) ≡ since start xs + since start ys
since-append start [] ys = omega arith
since-append start (x ∷ xs) ys = ground (arith, since-append start xs ys)

since-recent :
    (start now : ℕ) (xs : List ℕ)
    → now - start < http_error_window
    → since start (recent now xs) ≡ since start xs
unfolding recent
since-recent start now [] h = refl
since-recent start now (x ∷ xs) h = ground (arith, since-recent start now xs h)

since-le-length : (start : ℕ) (xs : List ℕ) → since start xs ≤ length xs
since-le-length start [] = omega arith
since-le-length start (x ∷ xs) = ground (arith, since-le-length start xs)

-- One more error inside the window: it is counted, and five of them disable the upstream.
record_http_error_step :
    (u : UpstreamClient) (start now n : ℕ)
    → start ≤ now
    → now - start < http_error_window
    → n ≤ since start u.http_error_times
    → (suc n ≤ since start (record_http_error u now).http_error_times)
      × (max_http_errors ≤ suc n → (record_http_error u now).disabled ≡ true)
      × (u.disabled ≡ true → (record_http_error u now).disabled ≡ true)
unfolding record_http_error
record_http_error_step u start now n h w c =
    let times = recent now (u.http_error_times ++ now ∷ []) in
    let one : since start (now ∷ []) ≡ 1 = ground arith in
    let counted : suc n ≤ since start times = omega (
      arith,
      since-recent start now (u.http_error_times ++ now ∷ []) w,
      since-append start u.http_error_times (now ∷ []),
      one,
    ) in
    let enough : suc n ≤ length times = omega (arith, counted, since-le-length start times) in
    (ground (arith, counted), λ five. ground (arith, enough), λ d. ground arith)

http_errors_kept :
    (u : UpstreamClient) (ts : List ℕ) → u.disabled ≡ true → (http_errors u ts).disabled ≡ true
unfolding http_errors record_http_error
http_errors_kept u [] d = d
http_errors_kept u (t ∷ ts) d = http_errors_kept (record_http_error u t) ts (ground arith)

http_errors_count :
    (u : UpstreamClient) (start end n : ℕ) (ts : List ℕ)
    → Within start end ts
    → end - start < http_error_window
    → n ≤ since start u.http_error_times
    → (max_http_errors ≤ n → u.disabled ≡ true)
    → max_http_errors ≤ n + length ts
    → (http_errors u ts).disabled ≡ true
unfolding http_errors
http_errors_count u start end n [] i w c d five = d (omega arith)
http_errors_count u start end n (t ∷ ts) i w c d five =
    let (c', now5, keeps) = record_http_error_step u start t n i.0.0 (omega arith) c in
    http_errors_count (record_http_error u t) start end (suc n) ts i.1 w c' now5 (omega arith)

-- Five HTTP errors inside one hour disable the upstream, whatever was recorded before and in
-- whatever order the clock readings arrive.
pub http_errors-disable :
    (u : UpstreamClient) (start end : ℕ) (ts : List ℕ)
    → Within start end ts
    → end - start < http_error_window
    → max_http_errors ≤ length ts
    → (http_errors u ts).disabled ≡ true
http_errors-disable u start end ts i w five =
    http_errors_count u start end 0 ts i w (omega arith) (λ h. absurd (omega arith)) (omega arith)
