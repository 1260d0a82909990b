-- ===== src/Jobs/MemoryQueue/Invariant/Runs.antt =====
-- jobs/job_queue.go: MemoryJobQueue is consistent after every schedule.
use microlib.Prelude.{List, [], ◌∷◌, arith, get_elem?, lookup, inl, inr, Option-cases}
use microlib.Jobs.RetryPolicy.{Float64}
use microlib.Jobs.Job.{JobQueueConfig}
use microlib.Jobs.MemoryQueue.{QueueJobEntry, new_memory_job_queue}
use microlib.Jobs.MemoryQueue.System.{System, Event, call, worker, step, run}
use microlib.Jobs.MemoryQueue.Invariant.{IsConsistent}
use microlib.Jobs.MemoryQueue.Invariant.Calls.{serve-IsConsistent}
use microlib.Jobs.MemoryQueue.Invariant.Workers.{act-IsConsistent}

module _ {F : Float64} where
  -- A new queue, before any worker is started, is consistent.
  pub new-IsConsistent :
      (blank : QueueJobEntry F) (config : JobQueueConfig)
      → IsConsistent (record { queue = new_memory_job_queue blank config; pool = [] })
  unfolding new_memory_job_queue lookup
  new-IsConsistent blank config = record {
    placed = λ p. ground arith;
    named = λ id p. ground arith;
  }

  -- Every call and every worker's step, at any moment, keeps the queue consistent.
  pub step-IsConsistent : (e : Event F) (s : System F) → IsConsistent s → IsConsistent (step e s)
  unfolding step
  step-IsConsistent (call c) s h = serve-IsConsistent s h c
  step-IsConsistent (worker i a) s h = elim (Option-cases (get_elem? s.pool i)) [
    | inl e ↦ rw (e, step) h
    | inr (phase, e) ↦ rw (e, step) (act-IsConsistent h i a phase e)
  ]

  pub run-IsConsistent :
      (es : List (Event F)) (s : System F) → IsConsistent s → IsConsistent (run s es)
  unfolding run
  run-IsConsistent [] s h = h
  run-IsConsistent (e ∷ es) s h = run-IsConsistent es (step e s) (step-IsConsistent e s h)
