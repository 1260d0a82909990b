-- ===== src/Jobs/Job.antt =====
-- jobs/scheduler.go: jobs, their metadata and their status; jobs/job_queue.go: the configuration.
use microlib.Prelude.{ℕ, Bool, true, false, Option, List, String, Dict}
use microlib.Jobs.RetryPolicy.{Float64, RetryPolicy}

pub data JobStatus : Type 0 where
  pending running completed failed dead_lettered cancelled : JobStatus

abbrev pub status_beq : JobStatus → JobStatus → Bool
status_beq pending pending = true
status_beq running running = true
status_beq completed completed = true
status_beq failed failed = true
status_beq dead_lettered dead_lettered = true
status_beq cancelled cancelled = true
status_beq _ _ = false

pub record JobMetadata (F : Float64) : Type 0 where
  pub description : String
  pub owner : String
  pub timeout : ℕ
  pub singleton : Bool
  pub retry_count : ℕ
  pub retry_policy : RetryPolicy F
  pub tags : Dict String String

-- The interface `Job`; what `Execute` does is the handler's affair.
pub record Job (F : Float64) : Type 0 where
  pub id : String
  pub name : String
  pub metadata : JobMetadata F

pub record JobInfo (F : Float64) : Type 0 where
  pub id : String
  pub name : String
  pub status : JobStatus
  pub enqueued_at : ℕ
  pub started_at : Option ℕ
  pub finished_at : Option ℕ
  pub error : Option String
  pub retry_count : ℕ
  pub next_retry : Option ℕ
  pub metadata : JobMetadata F

pub record JobFilter : Type 0 where
  pub status : List JobStatus
  pub start_time : Option ℕ
  pub end_time : Option ℕ
  pub limit : ℕ
  pub offset : ℕ

pub data JobError : Type 0 where
  job_not_found queue_closed invalid_job_id job_already_exists not_pending nil_handler : JobError

-- The part of `JobQueueConfig` that the in-memory queue reads.
pub record JobQueueConfig : Type 0 where
  pub name : String
  pub worker_count : ℕ
  pub default_timeout : ℕ
  pub dead_letter_enabled : Bool

-- Counters count, and a histogram is the list of what it observed.
pub record JobQueueMetrics : Type 0 where
  pub enqueued_jobs : ℕ
  pub started_jobs : ℕ
  pub completed_jobs : ℕ
  pub failed_jobs : ℕ
  pub retried_jobs : ℕ
  pub dead_lettered_jobs : ℕ
  pub cancelled_jobs : ℕ
  pub job_duration : List ℕ
  pub job_queue_time : List ℕ
  pub job_retry_count : List ℕ
