-- ===== src/Jobs/MemoryQueue/Worker.antt =====
-- jobs/job_queue.go: what one worker of MemoryJobQueue does in a round of its loop. A round is three
-- steps, between which other goroutines run: take a job (under the lock), mark it running (without
-- the lock), and, when the handler has returned, finish it (under the lock).
use microlib.Prelude.{
  ℕ, suc, ◌+◌, ◌-◌, Bool, false, Option, none, some, List, [], ◌∷◌, ◌++◌, String, insert, delete,
  leb, ltb, if◌then◌else◌, string_eq, nat_eq,
}
use microlib.Jobs.RetryPolicy.{Float64, should_retry, calculate_backoff}
use microlib.Jobs.Job.{pending, running, completed, failed, dead_lettered}
use microlib.Jobs.MemoryQueue.{QueueJobEntry, MemoryJobQueue, update}

-- `entry.NextRetry != nil && time.Now().Before(*entry.NextRetry)`
abbrev pub not_yet : Option ℕ → ℕ → Bool
not_yet none now = false
not_yet (some t) now = ltb now t

-- What a worker reads when the handler returns: two readings of the clock, the measured
-- duration and a random number.
pub record Readings (F : Float64) : Type 0 where
  pub finish_time : ℕ
  pub retry_time : ℕ
  pub duration : ℕ
  pub rand : F.Num

module _ {F : Float64} where
  -- By cases on the queue's contents: `ps` is `q.queue`.
  unfoldable pub dequeue_from : List ℕ → ℕ → MemoryJobQueue F → Option ℕ × MemoryJobQueue F
  unfolding insert
  dequeue_from [] now q = (none, q)
  dequeue_from (p ∷ ps) now q =
      if not_yet (q.store p).next_retry now
      then (none, record q { queue = ps ++ p ∷ [] })
      else (some p, record q { queue = ps; processing = insert (q.store p).job.id p q.processing })

  unfoldable pub dequeue_job : ℕ → MemoryJobQueue F → Option ℕ × MemoryJobQueue F
  unfolding dequeue_from
  dequeue_job now q = dequeue_from q.queue now q

  -- The clock does not run backwards, so the difference of times is exact.
  unfoldable pub mark_running : ℕ → ℕ → MemoryJobQueue F → MemoryJobQueue F
  mark_running p now q = record q {
    store = update q.store p (record (q.store p) { status = running; started_at = some now });
    metrics = record q.metrics {
      started_jobs = suc q.metrics.started_jobs;
      job_queue_time = (now - (q.store p).enqueued_at) ∷ q.metrics.job_queue_time;
    };
  }

  -- The timeout given to the handler's context, if any.
  unfoldable job_timeout : MemoryJobQueue F → ℕ → Option ℕ
  job_timeout q p =
      let own = (q.store p).job.metadata.timeout in
      let timeout = if leb own 0 then q.config.default_timeout else own in
      if ltb 0 timeout then some timeout else none

  -- The branches that follow an error, from the entry `e` as it is written so far.
  unfoldable pub retry_entry :
      ℕ → QueueJobEntry F → Readings F → MemoryJobQueue F → MemoryJobQueue F
  unfolding calculate_backoff
  retry_entry p e r q = record q {
    store = update q.store p (record e {
      retry_count = suc e.retry_count;
      next_retry = some (
          r.retry_time
          + calculate_backoff F e.job.metadata.retry_policy (suc e.retry_count) r.rand);
      status = pending;
    });
    queue = q.queue ++ p ∷ [];
    metrics = record q.metrics { retried_jobs = suc q.metrics.retried_jobs };
  }

  unfoldable pub dead_letter_entry : ℕ → QueueJobEntry F → MemoryJobQueue F → MemoryJobQueue F
  unfolding insert
  dead_letter_entry p e q = record q {
    store = update q.store p (record e { status = dead_lettered });
    dead_lettered = insert e.job.id p q.dead_lettered;
    metrics = record q.metrics {
      dead_lettered_jobs = suc q.metrics.dead_lettered_jobs;
      job_retry_count = e.retry_count ∷ q.metrics.job_retry_count;
    };
  }

  unfoldable pub fail_entry :
      ℕ → QueueJobEntry F → String → Readings F → MemoryJobQueue F → MemoryJobQueue F
  unfolding retry_entry dead_letter_entry should_retry
  fail_entry p entry err r q =
      let e = record entry { error = some err; status = failed } in
      let q' = record q {
        metrics = record q.metrics { failed_jobs = suc q.metrics.failed_jobs };
      } in
      if should_retry F e.job.metadata.retry_policy (suc e.retry_count)
      then retry_entry p e r q'
      else if q.config.dead_letter_enabled
      then dead_letter_entry p e q'
      else record q' { store = update q'.store p e }

  unfoldable pub complete_entry : ℕ → QueueJobEntry F → MemoryJobQueue F → MemoryJobQueue F
  complete_entry p e q = record q {
    store = update q.store p (record e { status = completed });
    metrics = record q.metrics {
      completed_jobs = suc q.metrics.completed_jobs;
      job_retry_count = e.retry_count ∷ q.metrics.job_retry_count;
    };
  }

  -- `none` is a handler that returned nil.
  unfoldable pub settle :
      ℕ → QueueJobEntry F → Option String → Readings F → MemoryJobQueue F → MemoryJobQueue F
  unfolding fail_entry complete_entry
  settle p e none r q = complete_entry p e q
  settle p e (some err) r q = fail_entry p e err r q

  unfoldable pub finish_job : ℕ → Option String → Readings F → MemoryJobQueue F → MemoryJobQueue F
  unfolding settle delete
  finish_job p err r q =
      let observed = record q {
        metrics = record q.metrics { job_duration = r.duration ∷ q.metrics.job_duration };
      } in
      let e = record (q.store p) { finished_at = some r.finish_time } in
      let settled = settle p e err r observed in
      record settled { processing = delete e.job.id settled.processing }
