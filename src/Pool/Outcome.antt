-- ===== src/Pool/Outcome.antt =====
-- scripts/forcing_pool_queue.py: what a failed transfer makes of the entry of its file.
use backend_wrf.Base.{
  ℕ, ◌+◌, ◌≡◌, ◌≢◌, ◌≤◌, ◌<◌, ◌↔◌, ◌⊎◌, refl, sym, eq_iff, ◌==◌, string_eq, ℕ_eq, String, Bool,
  true, false, ◌||◌, arith, if◌then◌else◌, Bool-cases, inl, inr,
}
use backend_wrf.Pool.{queued, failed, retry_wait, rate_limited, Entry, Args}
use backend_wrf.Pool.Errors.{classify_error, RetryAfter, seconds, no_seconds, retry_after}
use backend_wrf.Pool.Download.{
  Reply, after_failure, is_terminal, reply_status, reply_error, no_progress, stopped, delayed,
  noted,
}

abbrev pub is_retryable : String → Bool
is_retryable c = c == "network" || c == "upstream_temporary"

classified :
    (a b c d e f : Bool)
    → (let r : String × Bool =
          if a
          then ("runtime_compatibility", false)
          else if b
          then ("storage", false)
          else if c
          then ("data_integrity", false)
          else if d
          then ("network", true)
          else if e
          then ("upstream_temporary", true)
          else if f
          then ("upstream_permanent", false)
          else ("unknown", false) in
        r.1 ≡ is_retryable (r.0))
classified true b c d e f = refl
classified false true c d e f = refl
classified false false true d e f = refl
classified false false false true e f = refl
classified false false false false true f = refl
classified false false false false false true = refl
classified false false false false false false = refl

classify_error-retryable :
    (status : ℕ) (error : String)
    → (classify_error status error).1 ≡ is_retryable ((classify_error status error).0)
unfolding classify_error
classify_error-retryable status error = classified _ _ _ _ _ _

retry_after_bound :
    (w : RetryAfter) (attempts maximum : ℕ) → retry_after w attempts maximum ≤ maximum
unfolding retry_after
retry_after_bound (seconds n) attempts maximum = ground arith
retry_after_bound no_seconds attempts maximum = ground arith

-- Every attempt is used up, or too many of them brought nothing.
abbrev pub Exhausted : Args → ℕ → Entry → Type 0
Exhausted args attempts e =
    (args.retry_max_attempts ≤ attempts) ⊎ (args.retry_max_attempts ≤ e.no_progress_attempts)

-- The error has a known cause, or an HTTP status of an error.
abbrev pub IsPermanent : Entry → Type 0
IsPermanent e = (400 ≤ e.http_status) ⊎ (e.failure_class ≢ "unknown")

-- How the entry goes on: `now` is the time of the failure.
pub data Schedule (args : Args) (now attempts : ℕ) (r : Reply) (e : Entry) : Type 0 where
  waits :
      e.status ≡ retry_wait
      → is_retryable e.failure_class ≡ true
      → Exhausted args attempts e
      → e.retryable ≡ true
      → e.retry_at ≡ 0
      → e.terminal_retry_at ≡ now + args.retry_max_seconds
      → Schedule args now attempts r e
  given_up :
      e.status ≡ failed
      → is_retryable e.failure_class ≡ false
      → (Exhausted args attempts e ⊎ IsPermanent e)
      → e.retryable ≡ false
      → e.retry_at ≡ 0
      → e.terminal_retry_at ≡ 0
      → Schedule args now attempts r e
  tried_again :
      (is_retryable e.failure_class ≡ false → (e.failure_class ≡ "unknown") × (e.http_status < 400))
      → ((e.status ≡ queued) ⊎ (e.status ≡ rate_limited))
      → ((e.status ≡ rate_limited) ↔ (reply_status r ≡ 429))
      → attempts + 1 ≤ args.retry_max_attempts
      → e.no_progress_attempts + 1 ≤ args.retry_max_attempts
      → now ≤ e.retry_at
      → e.retry_at ≤ now + args.retry_max_seconds
      → Schedule args now attempts r e

-- Why no further attempt is made.
terminal_cases :
    (args : Args) (before attempts : ℕ) (r : Reply) (e : Entry)
    → is_terminal args before attempts r e ≡ true
    → Exhausted args attempts (noted 0 before r e)
      ⊎ ((is_retryable ((classify_error (reply_status r) (reply_error r)).0) ≡ false)
          × IsPermanent (noted 0 before r e))
unfolding is_terminal
terminal_cases args before attempts r e h = ground (
  arith,
  classify_error-retryable (reply_status r) (reply_error r),
  eq_iff ((classify_error (reply_status r) (reply_error r)).0) "unknown",
)

-- Without a further reason the error may pass.
passing_cases :
    (args : Args) (before attempts : ℕ) (r : Reply) (e : Entry)
    → is_terminal args before attempts r e ≡ false
    → is_retryable ((classify_error (reply_status r) (reply_error r)).0) ≡ false
    → ((classify_error (reply_status r) (reply_error r)).0 ≡ "unknown") × (reply_status r < 400)
unfolding is_terminal
passing_cases args before attempts r e h p = ground (
  arith,
  classify_error-retryable (reply_status r) (reply_error r),
  eq_iff ((classify_error (reply_status r) (reply_error r)).0) "unknown",
)

stopped-Schedule :
    (args : Args) (now before attempts : ℕ) (r : Reply) (e : Entry) (retryable : Bool)
    → retryable ≡ is_retryable ((classify_error (reply_status r) (reply_error r)).0)
    → is_terminal args before attempts r e ≡ true
    → Schedule args now attempts r (stopped args now retryable (noted now before r e))
stopped-Schedule args now before attempts r e true c h =
    waits refl (sym c) (retried (terminal_cases args before attempts r e h)) refl refl refl
  where
    retried :
        (Exhausted args attempts (noted 0 before r e)
          ⊎ ((is_retryable ((classify_error (reply_status r) (reply_error r)).0) ≡ false)
              × IsPermanent (noted 0 before r e)))
        → Exhausted args attempts (noted 0 before r e)
    retried (inl x) = x
    retried (inr (n, p)) = absurd (ground arith)
stopped-Schedule args now before attempts r e false c h =
    given_up refl (sym c) (lost (terminal_cases args before attempts r e h)) refl refl refl
  where
    lost :
        (Exhausted args attempts (noted 0 before r e)
          ⊎ ((is_retryable ((classify_error (reply_status r) (reply_error r)).0) ≡ false)
              × IsPermanent (noted 0 before r e)))
        → Exhausted args attempts (noted 0 before r e) ⊎ IsPermanent (noted 0 before r e)
    lost (inl x) = inl x
    lost (inr (n, p)) = inr p

delayed-Schedule :
    (args : Args) (now attempts : ℕ) (r : Reply) (e : Entry)
    → (is_retryable e.failure_class ≡ false → (e.failure_class ≡ "unknown") × (e.http_status < 400))
    → attempts + 1 ≤ args.retry_max_attempts
    → e.no_progress_attempts + 1 ≤ args.retry_max_attempts
    → Schedule args now attempts r (delayed args now attempts r e)
delayed-Schedule args now attempts r e p a n =
    tried_again p (ground arith) (ground arith) a n (ground arith)
      (ground (arith, retry_after_bound r.wait attempts args.retry_max_seconds))

-- A failed transfer leaves its file in one of three ways. It waits, marked retryable, for a try of its
-- own after `retry_max_seconds`: then the class of the error is `network` or `upstream_temporary`, and
-- `retry_max_attempts` attempts, or as many without progress, have been made. It is given up, not
-- retryable and with neither of the two times set: then the class is another, and the attempts are
-- used up, or the HTTP status is at least 400, or the class is not `unknown`. Or it is queued (rate
-- limited exactly at HTTP 429) for a moment at most `retry_max_seconds` ahead: then fewer than
-- `retry_max_attempts` attempts, and fewer without progress, have been made, and a class other than
-- those two is `unknown` with an HTTP status below 400.
pub after_failure-Schedule :
    (args : Args) (now before attempts : ℕ) (r : Reply) (e : Entry)
    → Schedule args now attempts r (after_failure args now before attempts r e)
unfolding after_failure is_terminal
after_failure-Schedule args now before attempts r e =
    elim (Bool-cases (is_terminal args before attempts r e)) [
      | inl h ↦ rw h (
          stopped-Schedule args now before attempts r e _
            (classify_error-retryable (reply_status r) (reply_error r)) h)
      | inr h ↦ rw h (
          delayed-Schedule args now attempts r (noted now before r e)
            (passing_cases args before attempts r e h) (few_attempts h) (few_without_progress h))
    ]
  where
    few_attempts :
        is_terminal args before attempts r e ≡ false → attempts + 1 ≤ args.retry_max_attempts
    few_attempts h = ground arith

    few_without_progress :
        is_terminal args before attempts r e ≡ false
        → no_progress before r e + 1 ≤ args.retry_max_attempts
    few_without_progress h = ground arith
