-- ===== src/Jobs/RetryPolicy.antt =====
-- jobs/retry_policy.go: how long to wait before a retry, and whether to retry.
-- Counts and durations are natural numbers (nanoseconds); the configuration is validated to be so.
pub mod Bounds
use microlib.Prelude.{
  ℕ, zero, suc, ◌+◌, ◌≤◌, ◌-◌, ◌≡◌, Bool, true, false, Option, none, some, leb, ltb, ◌==◌, ◌&&◌,
  ◌||◌, not, if◌then◌else◌, nat_eq,
}

-- `float64`: its operations and what the code relies on. `gt` is Go's `>`; `truncate` is the
-- conversion to an integer type, and `of_int` the one from it.
pub record Float64 : Type 1 where
  pub Num : Type 0
  pub of_int : ℕ → Num
  pub truncate : Num → ℕ
  pub add : Num → Num → Num
  pub sub : Num → Num → Num
  pub mul : Num → Num → Num
  pub gt : Num → Num → Bool
  -- Integers up to 2 ^ 53 have exact floats.
  pub truncate-of_int : (n : ℕ) → n ≤ 9_007_199_254_740_992 → truncate (of_int n) ≡ n
  -- What is not above a bound is not above it after truncation.
  pub truncate_mono : (x y : Num) → gt x y ≡ false → truncate x ≤ truncate y

pub data RetryPolicyType : Type 0 where
  exponential fixed no_retry : RetryPolicyType

abbrev is_none : RetryPolicyType → Bool
is_none no_retry = true
is_none _ = false

pub record RetryPolicy (F : Float64) : Type 0 where
  pub kind : RetryPolicyType
  pub max_retries : ℕ
  pub initial_interval : ℕ
  pub max_interval : ℕ
  pub multiplier : F.Num
  pub randomization_factor : F.Num

module _ (F : Float64) where
  open F use {Num, of_int, truncate, add, sub, mul, gt}

  -- The zero values of the fields that Go leaves out are `of_int 0`.
  unfoldable no_retry_policy : RetryPolicy F
  no_retry_policy = record {
    kind = no_retry;
    max_retries = 0;
    initial_interval = 0;
    max_interval = 0;
    multiplier = of_int 0;
    randomization_factor = of_int 0;
  }

  unfoldable fixed_retry_policy : ℕ → ℕ → RetryPolicy F
  fixed_retry_policy interval max_retries = record {
    kind = fixed;
    max_retries = max_retries;
    initial_interval = interval;
    max_interval = interval;
    multiplier = of_int 1;
    randomization_factor = of_int 0;
  }

  -- `for i := 1; i < retryCount; i++ { intervalFloat *= policy.Multiplier }`, in `n` rounds.
  unfoldable multiply : ℕ → Num → Num → Num
  multiply zero x m = x
  multiply (suc n) x m = multiply n (mul x m) m

  unfoldable pub apply_jitter : Num → Num → Num → Num
  apply_jitter x factor rand =
      let delta = mul factor x in
      let low = sub x delta in
      let high = add x delta in
      if gt factor (of_int 0) then add low (mul rand (sub high low)) else x

  unfoldable pub exponential_interval : RetryPolicy F → ℕ → Num → Num
  unfolding multiply apply_jitter
  exponential_interval policy retry_count rand =
      let x = multiply (retry_count - 1) (of_int policy.initial_interval) policy.multiplier in
      let cap = of_int policy.max_interval in
      apply_jitter (if gt x cap then cap else x) policy.randomization_factor rand

  -- The `switch` of `CalculateBackoff`.
  unfoldable interval_of : RetryPolicyType → RetryPolicy F → ℕ → Num → ℕ
  unfolding exponential_interval
  interval_of fixed policy retry_count rand = policy.initial_interval
  interval_of exponential policy retry_count rand =
      truncate (exponential_interval policy retry_count rand)
  interval_of no_retry policy retry_count rand = 0

  -- `rand` is what `rand.Float64` returns.
  unfoldable pub calculate_backoff : RetryPolicy F → ℕ → Num → ℕ
  unfolding interval_of
  calculate_backoff policy retry_count rand =
      if leb retry_count 0 || is_none policy.kind || ltb policy.max_retries retry_count
      then 0
      else interval_of policy.kind policy retry_count rand

  unfoldable pub should_retry : RetryPolicy F → ℕ → Bool
  should_retry policy retry_count = not (is_none policy.kind) && leb retry_count policy.max_retries

  unfoldable pub next_retry_time : RetryPolicy F → ℕ → Num → ℕ → Option ℕ
  unfolding calculate_backoff
  next_retry_time policy retry_count rand now =
      let backoff = calculate_backoff policy retry_count rand in
      if backoff == 0 then none else some (now + backoff)
