-- ===== src/Jobs/MemoryQueue/Listing/Lookups.antt =====
-- jobs/job_queue.go: what Get returns after the other calls.
use microlib.Prelude.{
  ℕ, ◌≡◌, none, some, String, lookup, lookup-insert, ltb, ◌+◌, arith, ◌==◌, string_eq,
  if◌then◌else◌,
}
use microlib.Jobs.RetryPolicy.{Float64}
use microlib.Jobs.Job.{Job, pending, cancelled}
use microlib.Jobs.MemoryQueue.{new_entry, enqueue_with_delay, cancel}
use microlib.Jobs.MemoryQueue.System.{System}
use microlib.Jobs.MemoryQueue.Invariant.{IsConsistent, unnamed}
use microlib.Jobs.MemoryQueue.Listing.{found, info_of, get}

module _ {F : Float64} (s : System F) (c : IsConsistent s) where
  -- In a consistent state, after an accepted EnqueueWithDelay of a job, Get of its id returns it as
  -- pending since then, with no retries and due after the delay, and Get of any other id returns what it did.
  pub get-enqueue :
      (job : Job F) (delay now : ℕ) (id : String)
      → (enqueue_with_delay (some job) delay now s.queue).0 ≡ none
      → get id (enqueue_with_delay (some job) delay now s.queue).1 ≡ (
          if job.id == id
          then found (record {
            id = job.id;
            name = job.name;
            status = pending;
            enqueued_at = now;
            started_at = none;
            finished_at = none;
            error = none;
            retry_count = 0;
            next_retry = if ltb 0 delay then some (now + delay) else none;
            metadata = job.metadata;
          })
          else get id s.queue)
  unfolding enqueue_with_delay get new_entry
  get-enqueue job delay now id ok = ground (
    arith,
    unnamed c id,
    lookup-insert job.id id s.queue.next_entry s.queue.jobs,
    string_eq.equal_iff job.id id,
    string_eq.equal_iff id "",
    string_eq.equal_iff job.id "",
  )

  -- In a consistent state, after an accepted Cancel, Get of the id returns the same job as cancelled
  -- at that time, and Get of any other id returns what it did.
  pub get-cancel :
      (id k : String) (now p : ℕ)
      → (cancel id now s.queue).0 ≡ none
      → lookup id s.queue.jobs ≡ some p
      → get k (cancel id now s.queue).1 ≡ (
          if id == k
          then found
              (info_of (record (s.queue.store p) { status = cancelled; finished_at = some now }))
          else get k s.queue)
  unfolding cancel get
  get-cancel id k now p ok at_id = ground (
    arith,
    c.named id p,
    c.named k p,
    string_eq.equal_iff id k,
    string_eq.equal_iff id "",
    string_eq.equal_iff k "",
  )
