-- ===== src/Messaging/Relay.antt =====
-- messaging/relay.go: OutboxRelay, one batch. The store, the broker and the clock are a parameter
-- that acts on a world `W`, and so are the floats. Log lines and the histogram of durations are
-- left out. Counts and configured durations are natural numbers (nanoseconds).
pub mod Backoff
pub mod Trace
pub mod Tally
use microlib.Prelude.{
  ℤ, pos, negsuc, ℕ, zero, suc, ◌+◌, ◌-◌, Bool, true, false, Option, none, some, List, [], ◌∷◌,
  String, ltb, leb, length, if◌then◌else◌, ◌&&◌, ◌⊎◌, inl, inr,
}
use microlib.Messaging.Message.{Message, OutboxMessage, to_message}

-- What `calculateBackoff` uses of `float64`: `to_int64` is the conversion to a duration.
pub record Floats : Type 1 where
  pub Num : Type 0
  pub of_int : ℕ → Num
  pub mul : Num → Num → Num
  pub pow : Num → Num → Num
  pub to_int64 : Num → ℤ

-- The store (`OutboxStore`), the broker (`Broker.Publish`) and `time.Now`.
pub record Environment (W : Type 0) : Type 0 where
  pub get_pending_messages : ℕ → W → (String ⊎ List OutboxMessage) × W
  pub mark_processed : String → W → Option String × W
  pub mark_failed : String → String → W → Option String × W
  pub publish : String → Message → W → Option String × W
  pub now : W → ℕ × W

pub record RelayConfig (F : Floats) : Type 0 where
  pub batch_size : ℕ
  pub poll_interval : ℕ
  pub max_retries : ℕ
  pub initial_backoff : ℕ
  pub max_backoff : ℕ
  pub backoff_factor : F.Num

-- The metrics that the relay writes: five counters, and the gauge of the batch size.
pub record Metrics : Type 0 where
  pub errors_total : ℕ
  pub messages_dropped : ℕ
  pub publish_failures : ℕ
  pub messages_processed : ℕ
  pub messages_failed : ℕ
  pub batch_size : ℕ

-- The state of the loop in `processBatch`: the world, the metrics and the two local counts.
pub record Progress (W : Type 0) : Type 0 where
  pub world : W
  pub metrics : Metrics
  pub processed_count : ℕ
  pub failed_count : ℕ

unfoldable default_relay_config : (F : Floats) → RelayConfig F
default_relay_config F = record {
  batch_size = 100;
  poll_interval = 5_000_000_000;
  max_retries = 10;
  initial_backoff = 1_000_000_000;
  max_backoff = 3_600_000_000_000;
  backoff_factor = F.of_int 2;
}

-- `backoff > r.config.MaxBackoff`.
abbrev pub exceeds : ℤ → ℕ → Bool
exceeds (pos n) bound = ltb bound n
exceeds (negsuc n) bound = false

-- `createdAt.After(now.Add(-backoff))`.
abbrev pub after : ℕ → ℕ → ℤ → Bool
after created_at now (pos n) = ltb now (created_at + n)
after created_at now (negsuc n) = ltb (now + suc n) created_at

module _ {F : Floats} where
  unfoldable pub calculate_backoff : RelayConfig F → ℕ → ℤ
  calculate_backoff config retry_count =
      let factor = F.pow config.backoff_factor (F.of_int (retry_count - 1)) in
      let backoff = F.to_int64 (F.mul (F.of_int config.initial_backoff) factor) in
      if exceeds backoff config.max_backoff then pos config.max_backoff else backoff

  unfoldable pub exceeded_retry_limit : RelayConfig F → OutboxMessage → Bool
  exceeded_retry_limit config m = leb config.max_retries m.retry_count && ltb 0 config.max_retries

-- What follows `MarkProcessed`, by its result.
unfoldable pub finish : {W : Type 0} → Option String × W → Progress W → Progress W
finish (none, w) s = record s { world = w; processed_count = suc s.processed_count }
finish (some err, w) s = record s {
  world = w;
  metrics = record s.metrics { errors_total = suc s.metrics.errors_total };
}

-- The state before the loop.
unfoldable pub start_progress : {W : Type 0} → Metrics → W → Progress W
start_progress metrics w = record {
  world = w;
  metrics = metrics;
  processed_count = 0;
  failed_count = 0;
}

-- What is recorded after the loop over `n` messages.
unfoldable pub record_metrics : {W : Type 0} → ℕ → Progress W → Metrics × W
record_metrics n s = (
  record s.metrics {
    messages_processed = s.metrics.messages_processed + s.processed_count;
    messages_failed = s.metrics.messages_failed + s.failed_count;
    batch_size = n;
  },
  s.world,
)

module _ {W : Type 0} (env : Environment W) where
  unfoldable pub drop_message : OutboxMessage → Progress W → Progress W
  drop_message m s = record s {
    world = (env.mark_processed m.id s.world).1;
    metrics = record s.metrics { messages_dropped = suc s.metrics.messages_dropped };
  }

  -- What follows `Publish`, by its result.
  unfoldable pub mark : OutboxMessage → Option String × W → Progress W → Progress W
  unfolding finish
  mark m (some err, w) s = record s {
    world = (env.mark_failed m.id err w).1;
    metrics = record s.metrics { publish_failures = suc s.metrics.publish_failures };
    failed_count = suc s.failed_count;
  }
  mark m (none, w) s = finish (env.mark_processed m.id w) s

  unfoldable pub deliver : OutboxMessage → Progress W → Progress W
  unfolding mark
  deliver m s = mark m (env.publish m.topic (to_message m) s.world) s

module _ {F : Floats} {W : Type 0} (env : Environment W) (config : RelayConfig F) where
  -- A message that has failed before, at the time that the clock shows.
  unfoldable pub retry : OutboxMessage → ℕ × W → Progress W → Progress W
  unfolding calculate_backoff deliver
  retry m (now, w) s =
      let s' = record s { world = w } in
      if after m.created_at now (calculate_backoff config m.retry_count)
      then s'
      else deliver env m s'

  -- The body of the loop.
  unfoldable pub relay_message : OutboxMessage → Progress W → Progress W
  unfolding exceeded_retry_limit drop_message retry deliver
  relay_message m s =
      if exceeded_retry_limit config m
      then drop_message env m s
      else if ltb 0 m.retry_count
      then retry m (env.now s.world) s
      else deliver env m s

  unfoldable pub relay_messages : List OutboxMessage → Progress W → Progress W
  unfolding relay_message
  relay_messages [] s = s
  relay_messages (m ∷ ms) s = relay_messages ms (relay_message m s)

  -- What follows `GetPendingMessages`, by its result.
  unfoldable pub process_messages : (String ⊎ List OutboxMessage) × W → Metrics → Metrics × W
  unfolding start_progress relay_messages record_metrics
  process_messages (inl err, w) metrics =
      (record metrics { errors_total = suc metrics.errors_total }, w)
  process_messages (inr [], w) metrics = (metrics, w)
  process_messages (inr (m ∷ ms), w) metrics =
      record_metrics (length (m ∷ ms)) (relay_messages (m ∷ ms) (start_progress metrics w))

  unfoldable pub process_batch : Metrics → W → Metrics × W
  unfolding process_messages
  process_batch metrics w = process_messages (env.get_pending_messages config.batch_size w) metrics
