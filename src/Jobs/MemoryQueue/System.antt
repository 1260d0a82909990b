-- ===== src/Jobs/MemoryQueue/System.antt =====
-- jobs/job_queue.go: MemoryJobQueue with its callers and workers, as a system that takes one step at
-- a time. A schedule is a list of steps, in any order: every interleaving of critical sections.
use microlib.Prelude.{
  ℕ, Bool, Option, none, some, List, [], ◌∷◌, ◌++◌, String, get_elem?, set, replicate,
}
use microlib.Jobs.RetryPolicy.{Float64}
use microlib.Jobs.Job.{Job}
use microlib.Jobs.MemoryQueue.{
  MemoryJobQueue, enqueue_with_delay, cancel, requeue_dead_lettered_job, purge_dead_lettered_job,
  process, close,
}
use microlib.Jobs.MemoryQueue.Worker.{Readings, dequeue_job, mark_running, finish_job}

-- Where a worker is in its loop: waiting for a tick, between taking a job and marking it, in the
-- handler, or gone.
pub data Phase : Type 0 where
  idle : Phase
  fetched : ℕ → Phase
  busy : ℕ → Phase
  stopped : Phase

pub data Call (F : Float64) : Type 0 where
  enqueues : Option (Job F) → ℕ → ℕ → Call F
  cancels : String → ℕ → Call F
  requeues : String → ℕ → Call F
  purges : String → Call F
  processes : Bool → Call F
  closes : Call F

-- A tick takes a job; `begins` marks it; `returns` is the handler's return; `quits` is a worker that
-- sees the closed channel or the end of its context.
pub data Action (F : Float64) : Type 0 where
  ticks : ℕ → Action F
  begins : ℕ → Action F
  returns : Option String → Readings F → Action F
  quits : Action F

pub data Event (F : Float64) : Type 0 where
  call : Call F → Event F
  worker : ℕ → Action F → Event F

pub record System (F : Float64) : Type 0 where
  pub queue : MemoryJobQueue F
  pub pool : List Phase

module _ {F : Float64} where
  unfoldable pub took : Option ℕ × MemoryJobQueue F → Phase × MemoryJobQueue F
  took (none, q) = (idle, q)
  took (some p, q) = (fetched p, q)

  -- An action that is not the worker's turn changes nothing.
  unfoldable pub act : Action F → Phase → MemoryJobQueue F → Phase × MemoryJobQueue F
  unfolding took dequeue_job mark_running finish_job
  act (ticks now) idle q = took (dequeue_job now q)
  act (begins now) (fetched p) q = (busy p, mark_running p now q)
  act (returns err r) (busy p) q = (idle, finish_job p err r q)
  act quits idle q = (stopped, q)
  act _ phase q = (phase, q)

  unfoldable pub serve : Call F → System F → System F
  unfolding enqueue_with_delay cancel requeue_dead_lettered_job purge_dead_lettered_job process
      close
  serve (enqueues job delay now) s = record s {
    queue = (enqueue_with_delay job delay now s.queue).1;
  }
  serve (cancels id now) s = record s { queue = (cancel id now s.queue).1 }
  serve (requeues id now) s = record s { queue = (requeue_dead_lettered_job id now s.queue).1 }
  serve (purges id) s = record s { queue = (purge_dead_lettered_job id s.queue).1 }
  serve (processes handler_given) s = record s {
    pool = s.pool ++ replicate (process handler_given s.queue).1 idle;
  }
  serve closes s = record s { queue = close s.queue }

  unfoldable pub advance : ℕ → System F → Phase × MemoryJobQueue F → System F
  advance i s (phase, q) = record { queue = q; pool = set s.pool i phase }

  unfoldable pub step : Event F → System F → System F
  unfolding act serve advance
  step (call c) s = serve c s
  step (worker i a) s = elim (get_elem? s.pool i) [
    | none ↦ s
    | some phase ↦ advance i s (act a phase s.queue)
  ]

  unfoldable pub run : System F → List (Event F) → System F
  unfolding step
  run s [] = s
  run s (e ∷ es) = run (step e s) es
