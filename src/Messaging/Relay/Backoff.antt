-- ===== src/Messaging/Relay/Backoff.antt =====
-- messaging/relay.go: calculateBackoff, its bound and its conversion from a float.
use microlib.Prelude.{
  ℤ, pos, negsuc, ℕ, ◌+◌, ◌-◌, ◌≤◌, ◌≡◌, false, ltb, if◌then◌else◌, inl, inr, arith, Bool-cases,
}
use microlib.Messaging.Relay.{Floats, RelayConfig, exceeds, after, calculate_backoff}

after-capped :
    (bound created_at now : ℕ) (z : ℤ)
    → created_at + bound ≤ now
    → after created_at now (if exceeds z bound then pos bound else z) ≡ false
after-capped bound created_at now (pos n) h = elim (Bool-cases (ltb bound n)) [
  | inl above ↦ rw above (ground arith)
  | inr below ↦ rw below (ground arith)
]
after-capped bound created_at now (negsuc n) h = ground arith

module _ {F : Floats} (config : RelayConfig F) where
  -- The float that is converted to a duration.
  unfoldable pub grown : ℕ → F.Num
  grown retry_count =
      F.mul (F.of_int config.initial_backoff)
        (F.pow config.backoff_factor (F.of_int (retry_count - 1)))

  -- A message that has failed waits at most `MaxBackoff` from its creation, whatever the retry
  -- count: from then on it is not skipped.
  pub after_max_backoff :
      (retry_count created_at now : ℕ)
      → created_at + config.max_backoff ≤ now
      → after created_at now (calculate_backoff config retry_count) ≡ false
  unfolding calculate_backoff grown
  after_max_backoff k created_at now h =
      after-capped config.max_backoff created_at now (F.to_int64 (grown k)) h

  -- The cap comes after the conversion to an integer, so when that overflows to a negative number
  -- the cap does not apply, and a message created in the past does not wait at all.
  pub overflowed_backoff :
      (retry_count created_at now n : ℕ)
      → F.to_int64 (grown retry_count) ≡ negsuc n
      → created_at ≤ now
      → after created_at now (calculate_backoff config retry_count) ≡ false
  unfolding calculate_backoff grown
  overflowed_backoff k created_at now n h past = rw h (ground arith)
