-- ===== src/Tests/JobsTests.antt =====
-- jobs/: two jobs through the queue.
use microlib.Prelude.{
  ℕ, ◌≤◌, ◌+◌, ◌-◌, ◌*◌, ◌≡◌, refl, true, false, none, some, List, [], ◌∷◌, length, String, lookup,
  arith, ltb, string_eq,
}
use microlib.Jobs.RetryPolicy.{Float64, RetryPolicy, exponential, calculate_backoff}
use microlib.Jobs.Job.{Job, JobFilter, JobQueueConfig, pending}
use microlib.Jobs.MemoryQueue.{
  QueueJobEntry, new_memory_job_queue, new_entry, enqueue_with_delay, cancel,
}
use microlib.Jobs.MemoryQueue.Worker.{Readings}
use microlib.Jobs.MemoryQueue.System.{
  System, Event, call, worker, enqueues, cancels, processes, ticks, begins, returns, step, run,
}
use microlib.Jobs.MemoryQueue.Invariant.{IsConsistent}
use microlib.Jobs.MemoryQueue.Invariant.Runs.{run-IsConsistent, new-IsConsistent}
use microlib.Jobs.MemoryQueue.Cancel.{IsGone, cancel_is_final}
use microlib.Jobs.MemoryQueue.Retries.{IsAccounted, run-IsAccounted}
use microlib.Jobs.MemoryQueue.Listing.{get, list, found, info_of}
use microlib.Jobs.MemoryQueue.Listing.Filters.{length-list}
use microlib.Jobs.MemoryQueue.Listing.Lookups.{get-enqueue, get-cancel}

-- Numbers whose every value is whole stand for the floats.
pub whole-truncate : (n : ℕ) → n ≤ 9_007_199_254_740_992 → ◌≡◌ {A = ℕ} n n
whole-truncate n h = refl

pub whole_mono : (x y : ℕ) → ltb y x ≡ false → x ≤ y
whole_mono x y h = ground arith

abbrev pub whole : Float64
whole = record {
  Num = ℕ;
  of_int = λ n. n;
  truncate = λ n. n;
  add = λ a b. a + b;
  sub = λ a b. a - b;
  mul = λ a b. a * b;
  gt = λ a b. ltb b a;
  truncate-of_int = whole-truncate;
  truncate_mono = whole_mono;
}

abbrev doubling : RetryPolicy whole
doubling = record {
  kind = exponential;
  max_retries = 2;
  initial_interval = 100;
  max_interval = 350;
  multiplier = 2;
  randomization_factor = 0;
}

-- 100, 200, and after the last retry nothing.
doubling_waits :
    (calculate_backoff whole doubling 1 0 ≡ 100)
    × (calculate_backoff whole doubling 2 0 ≡ 200)
    × (calculate_backoff whole doubling 3 0 ≡ 0)
unfolding calculate_backoff
doubling_waits = (refl, refl, refl)

abbrev pub job : String → Job whole
job id = record {
  id = id;
  name = "send";
  metadata = record {
    description = "";
    owner = "";
    timeout = 0;
    singleton = false;
    retry_count = 0;
    retry_policy = doubling;
    tags = [];
  };
}

abbrev blank : QueueJobEntry whole
unfolding new_entry
blank = new_entry (job "") 0 0

abbrev config : JobQueueConfig
config = record {
  name = "mail";
  worker_count = 2;
  default_timeout = 300;
  dead_letter_enabled = true;
}

abbrev empty : System whole
unfolding new_memory_job_queue
empty = record { queue = new_memory_job_queue blank config; pool = [] }

-- Two workers, two jobs, and the first job taken by the first worker.
abbrev opening : List (Event whole)
opening =
    call (processes true)
    ∷ call (enqueues (some (job "a")) 0 10)
    ∷ call (enqueues (some (job "b")) 0 11)
    ∷ worker 0 (ticks 12)
    ∷ []

abbrev readings : Readings whole
readings = record { finish_time = 20; retry_time = 20; duration = 5; rand = 0 }

abbrev failures : List (Event whole)
failures =
    worker 0 (begins 13)
    ∷ worker 0 (returns (some "timeout") readings)
    ∷ worker 1 (ticks 14)
    ∷ worker 1 (begins 15)
    ∷ worker 1 (returns none readings)
    ∷ []

abbrev opened : System whole
unfolding run new_memory_job_queue
opened = run empty opening

empty-IsConsistent : IsConsistent empty
unfolding new_memory_job_queue
empty-IsConsistent = new-IsConsistent blank config

opened-IsConsistent : IsConsistent opened
unfolding run new_memory_job_queue
opened-IsConsistent = run-IsConsistent opening empty empty-IsConsistent

-- The failed job waits for its retry, and the other one is done.
after_failures : (run opened failures).queue.queue ≡ 0 ∷ []
unfolding run new_memory_job_queue
after_failures = refl

cancel_is_final_example : IsGone (run (step (call (cancels "b" 16)) opened) failures) 1
unfolding run cancel lookup new_memory_job_queue
cancel_is_final_example =
    cancel_is_final failures opened "b" 16 1 opened-IsConsistent refl refl refl

get-enqueue_example :
    get "c" (enqueue_with_delay (some (job "c")) 5 30 opened.queue).1
    ≡ found (info_of (new_entry (job "c") 5 30))
unfolding run new_memory_job_queue enqueue_with_delay new_entry
get-enqueue_example = get-enqueue opened opened-IsConsistent (job "c") 5 30 "c" refl

get-cancel_example : get "a" (cancel "b" 16 opened.queue).1 ≡ get "a" opened.queue
unfolding run new_memory_job_queue cancel lookup
get-cancel_example = get-cancel opened opened-IsConsistent "b" "a" 16 1 refl refl

run-IsAccounted_example : IsAccounted (run empty opening)
unfolding new_memory_job_queue
run-IsAccounted_example = run-IsAccounted opening empty (omega arith)

abbrev all_pending : JobFilter
all_pending = record {
  status = pending ∷ [];
  start_time = none;
  end_time = some 10;
  limit = 5;
  offset = 0;
}

length-list_example : length (list all_pending opened.queue) ≤ 5
length-list_example = length-list all_pending opened.queue (omega arith)
