-- ===== src/Jobs/MemoryQueue.antt =====
-- jobs/job_queue.go: MemoryJobQueue. The maps and the queue share their entries by pointers, so
-- entries stand in a store and the maps hold pointers into it. A method returns its error, if any,
-- and the queue; each is one critical section. `now` and the like are readings of `time.Now`.
pub mod Worker
pub mod Listing
pub mod Store
pub mod System
pub mod Invariant
pub mod Cancel
pub mod Retries
use microlib.Prelude.{
  ℕ, suc, ◌+◌, ◌-◌, ◌≡◌, Bool, true, false, Option, none, some, List, [], ◌∷◌, ◌++◌, String, Dict,
  lookup, insert, delete, leb, ltb, not, ◌==◌, if◌then◌else◌, string_eq, nat_eq, nat_beq,
}
use microlib.Jobs.RetryPolicy.{Float64}
use microlib.Jobs.Job.{
  Job, JobStatus, pending, cancelled, status_beq, JobQueueConfig, JobQueueMetrics, JobError,
  queue_closed, invalid_job_id, job_already_exists, job_not_found, not_pending, nil_handler,
}

pub record QueueJobEntry (F : Float64) : Type 0 where
  pub job : Job F
  pub status : JobStatus
  pub enqueued_at : ℕ
  pub started_at : Option ℕ
  pub finished_at : Option ℕ
  pub error : Option String
  pub retry_count : ℕ
  pub next_retry : Option ℕ

-- `store` holds the entry of each pointer below `next_entry`; other cells are never read.
pub record MemoryJobQueue (F : Float64) : Type 0 where
  pub store : ℕ → QueueJobEntry F
  pub next_entry : ℕ
  pub jobs : Dict String ℕ
  pub queue : List ℕ
  pub processing : Dict String ℕ
  pub dead_lettered : Dict String ℕ
  pub workers : ℕ
  pub closed : Bool
  pub metrics : JobQueueMetrics
  pub config : JobQueueConfig

-- A write through a pointer.
abbrev pub update {ℓ} : {A : Type ℓ} → (ℕ → A) → ℕ → A → ℕ → A
update store p a q = if nat_beq p q then a else store q

abbrev no_metrics : JobQueueMetrics
no_metrics = record {
  enqueued_jobs = 0;
  started_jobs = 0;
  completed_jobs = 0;
  failed_jobs = 0;
  retried_jobs = 0;
  dead_lettered_jobs = 0;
  cancelled_jobs = 0;
  job_duration = [];
  job_queue_time = [];
  job_retry_count = [];
}

module _ {F : Float64} where
  -- `blank` is what the unused cells of the store hold.
  unfoldable pub new_memory_job_queue : QueueJobEntry F → JobQueueConfig → MemoryJobQueue F
  new_memory_job_queue blank config =
      let workers : ℕ = if leb config.worker_count 0 then 1 else config.worker_count in
      record {
        store = λ _. blank;
        next_entry = 0;
        jobs = [];
        queue = [];
        processing = [];
        dead_lettered = [];
        workers = workers;
        closed = false;
        metrics = no_metrics;
        config = record config { worker_count = workers };
      }

  unfoldable pub new_entry : Job F → ℕ → ℕ → QueueJobEntry F
  new_entry job delay now = record {
    job = job;
    status = pending;
    enqueued_at = now;
    started_at = none;
    finished_at = none;
    error = none;
    retry_count = 0;
    next_retry = if ltb 0 delay then some (now + delay) else none;
  }

  unfoldable pub add_entry : MemoryJobQueue F → Job F → ℕ → ℕ → MemoryJobQueue F
  unfolding new_entry insert
  add_entry q job delay now = record q {
    store = update q.store q.next_entry (new_entry job delay now);
    next_entry = suc q.next_entry;
    jobs = insert job.id q.next_entry q.jobs;
    queue = q.queue ++ q.next_entry ∷ [];
    metrics = record q.metrics { enqueued_jobs = suc q.metrics.enqueued_jobs };
  }

  -- `none` for the job is a nil interface.
  unfoldable pub enqueue_with_delay :
      Option (Job F) → ℕ → ℕ → MemoryJobQueue F → Option JobError × MemoryJobQueue F
  unfolding add_entry lookup
  enqueue_with_delay none delay now q = (some invalid_job_id, q)
  enqueue_with_delay (some job) delay now q =
      if job.id == ""
      then (some invalid_job_id, q)
      else if q.closed
      then (some queue_closed, q)
      else elim (lookup job.id q.jobs) [
        | some _ ↦ (some job_already_exists, q)
        | none ↦ (none, add_entry q job delay now)
      ]

  unfoldable enqueue : Option (Job F) → ℕ → MemoryJobQueue F → Option JobError × MemoryJobQueue F
  unfolding enqueue_with_delay
  enqueue job now q = enqueue_with_delay job 0 now q

  -- The loop of `Cancel` over the queue: the first entry with the job's id is taken out.
  unfoldable pub remove_first : (ℕ → QueueJobEntry F) → String → List ℕ → List ℕ
  remove_first store id [] = []
  remove_first store id (p ∷ ps) =
      let rest = remove_first store id ps in if (store p).job.id == id then ps else p ∷ rest

  unfoldable pub cancel_entry : MemoryJobQueue F → String → ℕ → ℕ → MemoryJobQueue F
  unfolding remove_first
  cancel_entry q id p now = record q {
    store = update q.store p (record (q.store p) { status = cancelled; finished_at = some now });
    queue = remove_first q.store id q.queue;
    metrics = record q.metrics { cancelled_jobs = suc q.metrics.cancelled_jobs };
  }

  unfoldable pub cancel : String → ℕ → MemoryJobQueue F → Option JobError × MemoryJobQueue F
  unfolding cancel_entry lookup
  cancel id now q = if id == "" then (some invalid_job_id, q) else elim (lookup id q.jobs) [
    | none ↦ (some job_not_found, q)
    | some p ↦
        if status_beq (q.store p).status pending
        then (none, cancel_entry q id p now)
        else (some not_pending, q)
  ]

  unfoldable pub requeue_entry : MemoryJobQueue F → String → ℕ → ℕ → MemoryJobQueue F
  unfolding delete
  requeue_entry q id p now = record q {
    store = update q.store p (record (q.store p) {
      status = pending;
      retry_count = 0;
      error = none;
      next_retry = none;
      started_at = none;
      finished_at = none;
      enqueued_at = now;
    });
    dead_lettered = delete id q.dead_lettered;
    queue = q.queue ++ p ∷ [];
  }

  unfoldable pub requeue_dead_lettered_job :
      String → ℕ → MemoryJobQueue F → Option JobError × MemoryJobQueue F
  unfolding requeue_entry lookup
  requeue_dead_lettered_job id now q = elim (lookup id q.dead_lettered) [
    | none ↦ (some job_not_found, q)
    | some p ↦ (none, requeue_entry q id p now)
  ]

  unfoldable pub purge_dead_lettered_job :
      String → MemoryJobQueue F → Option JobError × MemoryJobQueue F
  unfolding lookup delete
  purge_dead_lettered_job id q = elim (lookup id q.dead_lettered) [
    | none ↦ (some job_not_found, q)
    | some _ ↦
        (none, record q { dead_lettered = delete id q.dead_lettered; jobs = delete id q.jobs })
  ]

  -- `Process`: its error, or the number of workers that it starts.
  unfoldable pub process : Bool → MemoryJobQueue F → Option JobError × ℕ
  process handler_given q =
      if not handler_given
      then (some nil_handler, 0)
      else if q.closed
      then (some queue_closed, 0)
      else (none, q.workers)

  -- `Close` as far as the queue is concerned; the workers leave in their own steps.
  unfoldable pub close : MemoryJobQueue F → MemoryJobQueue F
  close q = record q { closed = true }
