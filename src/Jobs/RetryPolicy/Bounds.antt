-- ===== src/Jobs/RetryPolicy/Bounds.antt =====
-- jobs/retry_policy.go: bounds on the wait, and when there is none.
use microlib.Prelude.{
  ℕ, ◌+◌, ◌≤◌, ◌<◌, ◌≡◌, false, none, some, arith, inl, inr, Bool-cases, nat_eq, if◌then◌else◌,
}
use microlib.Jobs.RetryPolicy.{
  Float64, RetryPolicy, apply_jitter, exponential_interval, calculate_backoff, should_retry,
  next_retry_time,
}

module _ (F : Float64) where
  open F use {Num, of_int, truncate, gt, truncate-of_int, truncate_mono}

  capped-le :
      (x : Num) (m : ℕ)
      → m ≤ 9_007_199_254_740_992
      → truncate (if gt x (of_int m) then of_int m else x) ≤ m
  capped-le x m small = elim (Bool-cases (gt x (of_int m))) [
    | inl above ↦ rw above (omega (arith, truncate-of_int m small))
    | inr below ↦
        rw below (omega (arith, truncate_mono x (of_int m) below, truncate-of_int m small))
  ]

  -- Without jitter the exponential wait never passes `MaxInterval`.
  interval-le :
      (policy : RetryPolicy F) (n : ℕ) (rand : Num)
      → gt policy.randomization_factor (of_int 0) ≡ false
      → policy.max_interval ≤ 9_007_199_254_740_992
      → truncate (exponential_interval F policy n rand) ≤ policy.max_interval
  unfolding exponential_interval
  interval-le policy n rand flat small =
      rw (flat, apply_jitter) (capped-le _ policy.max_interval small)

  -- A policy without jitter, whose fixed interval is at most `MaxInterval`, never waits longer than
  -- `MaxInterval`, which is exact as a float.
  pub backoff-le-max_interval :
      (policy : RetryPolicy F) (n : ℕ) (rand : Num)
      → gt policy.randomization_factor (of_int 0) ≡ false
      → policy.initial_interval ≤ policy.max_interval
      → policy.max_interval ≤ 9_007_199_254_740_992
      → calculate_backoff F policy n rand ≤ policy.max_interval
  unfolding calculate_backoff
  backoff-le-max_interval policy n rand flat fits small =
      ground (arith, interval-le policy n rand flat small)

  -- A retry that `ShouldRetry` refuses has no wait and no next time.
  pub no_wait_of_no_retry :
      (policy : RetryPolicy F) (n : ℕ) (rand : Num) (now : ℕ)
      → should_retry F policy n ≡ false
      → (calculate_backoff F policy n rand ≡ 0) × (next_retry_time F policy n rand now ≡ none)
  unfolding should_retry next_retry_time
  no_wait_of_no_retry policy n rand now h = ground arith

  -- `NextRetryTime` is never in the past, and is nil exactly when the wait is 0.
  next_retry_time-later :
      (policy : RetryPolicy F) (n : ℕ) (rand : Num) (now t : ℕ)
      → next_retry_time F policy n rand now ≡ some t
      → (now < t) × (t ≡ now + calculate_backoff F policy n rand)
  unfolding next_retry_time
  next_retry_time-later policy n rand now t h = ground arith
