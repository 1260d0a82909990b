-- ===== src/Jobs/MemoryQueue/Listing.antt =====
-- jobs/job_queue.go: Get, List and GetDeadLetteredJobs of MemoryJobQueue.
pub mod Filters
pub mod Lookups
use microlib.Prelude.{
  ℕ, suc, Bool, true, false, not, Option, none, some, List, [], ◌∷◌, String, Dict, lookup, values,
  length, take, drop, any, is_empty, ltb, ◌==◌, ◌&&◌, ◌||◌, if◌then◌else◌, string_eq,
}
use microlib.Jobs.RetryPolicy.{Float64}
use microlib.Jobs.Job.{
  JobInfo, JobFilter, JobStatus, status_beq, JobError, invalid_job_id, job_not_found,
}
use microlib.Jobs.MemoryQueue.{MemoryJobQueue, QueueJobEntry}

pub data GetResult (F : Float64) : Type 0 where
  found : JobInfo F → GetResult F
  refused : JobError → GetResult F

module _ {F : Float64} where
  abbrev pub info_of : QueueJobEntry F → JobInfo F
  info_of e = record {
    id = e.job.id;
    name = e.job.name;
    status = e.status;
    enqueued_at = e.enqueued_at;
    started_at = e.started_at;
    finished_at = e.finished_at;
    error = e.error;
    retry_count = e.retry_count;
    next_retry = e.next_retry;
    metadata = e.job.metadata;
  }

  unfoldable pub get : String → MemoryJobQueue F → GetResult F
  unfolding lookup
  get id q = if id == "" then refused invalid_job_id else elim (lookup id q.jobs) [
    | none ↦ refused job_not_found
    | some p ↦ found (info_of (q.store p))
  ]

-- The first loop over `filter.Status`.
unfoldable pub status_matches : List JobStatus → JobStatus → Bool
status_matches [] s = false
status_matches (x ∷ xs) s = status_beq s x || status_matches xs s

-- `filter.StartTime != nil && t.Before(*filter.StartTime)`
abbrev is_before : ℕ → Option ℕ → Bool
is_before t none = false
is_before t (some bound) = ltb t bound

-- `filter.EndTime != nil && t.After(*filter.EndTime)`
abbrev is_after : ℕ → Option ℕ → Bool
is_after t none = false
is_after t (some bound) = ltb bound t

module _ {F : Float64} where
  -- The entry is skipped by one of the `continue` statements.
  unfoldable pub skips : JobFilter → QueueJobEntry F → Bool
  unfolding status_matches
  skips filter e =
      if not (is_empty filter.status) && not (status_matches filter.status e.status)
      then true
      else if is_before e.enqueued_at filter.start_time
      then true
      else is_after e.enqueued_at filter.end_time

  -- The loop over the map, whose order is that of the list.
  unfoldable pub collect : JobFilter → (ℕ → QueueJobEntry F) → List ℕ → List (JobInfo F)
  unfolding skips
  collect filter store [] = []
  collect filter store (p ∷ ps) =
      let rest = collect filter store ps in
      if skips filter (store p) then rest else info_of (store p) ∷ rest

-- The offset and the limit.
unfoldable pub page {ℓ} : {A : Type ℓ} → ℕ → ℕ → List A → List A
page offset limit result =
    let rest = if ltb 0 offset && ltb offset (length result) then drop offset result else result in
    if ltb 0 limit && ltb limit (length rest) then take limit rest else rest

module _ {F : Float64} where
  unfoldable pub list : JobFilter → MemoryJobQueue F → List (JobInfo F)
  unfolding collect page
  list filter q = page filter.offset filter.limit (collect filter q.store (values q.jobs))

  -- The loop of `GetDeadLetteredJobs`; `count` is the number of results so far.
  unfoldable pub collect_dead : ℕ → ℕ → (ℕ → QueueJobEntry F) → List ℕ → List (JobInfo F)
  collect_dead limit count store [] = []
  collect_dead limit count store (p ∷ ps) =
      let rest = collect_dead limit (suc count) store ps in
      if ltb 0 limit && not (ltb count limit) then [] else info_of (store p) ∷ rest

  unfoldable pub get_dead_lettered_jobs : ℕ → MemoryJobQueue F → List (JobInfo F)
  unfolding collect_dead
  get_dead_lettered_jobs limit q = collect_dead limit 0 q.store (values q.dead_lettered)
