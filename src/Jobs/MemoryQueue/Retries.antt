-- ===== src/Jobs/MemoryQueue/Retries.antt =====
-- jobs/job_queue.go: retries of MemoryJobQueue are bounded, and its metrics add up.
use microlib.Prelude.{
  ℕ, ◌+◌, ◌≤◌, ◌≡◌, refl, none, some, List, [], ◌∷◌, arith, get_elem?, inl, inr, Option-cases,
  total, total-set, total-append, total-replicate_zero, replicate,
}
use microlib.Jobs.RetryPolicy.{Float64}
use microlib.Jobs.MemoryQueue.{MemoryJobQueue, process}
use microlib.Jobs.MemoryQueue.System.{
  System, Phase, idle, busy, Call, enqueues, processes, Action, ticks, returns, Event, call, worker,
  act, serve, advance, step, run,
}

module _ {F : Float64} where
  -- The entry at `p` has been retried at most as often as its job's policy allows.
  abbrev pub IsRetryBounded : MemoryJobQueue F → ℕ → Type 0
  IsRetryBounded q p = (q.store p).retry_count ≤ (q.store p).job.metadata.retry_policy.max_retries

abbrev is_busy : Phase → ℕ
is_busy (busy p) = 1
is_busy _ = 0

-- The counters agree with one another, with the workers and with the entries made.
pub record IsAccounted {F : Float64} (s : System F) : Type 0 where
  pub starts :
      s.queue.metrics.started_jobs
      ≡ s.queue.metrics.completed_jobs + s.queue.metrics.failed_jobs + total is_busy s.pool
  pub failures :
      s.queue.metrics.retried_jobs + s.queue.metrics.dead_lettered_jobs
      ≤ s.queue.metrics.failed_jobs
  pub entries : s.queue.metrics.enqueued_jobs ≡ s.queue.next_entry

module _ {F : Float64} where
  serve-IsAccounted : (c : Call F) (s : System F) → IsAccounted s → IsAccounted (serve c s)
  unfolding serve
  serve-IsAccounted (enqueues none delay now) s h = ground arith
  serve-IsAccounted (processes given) s h = ground (
    arith,
    total-append is_busy s.pool (replicate (process given s.queue).1 idle),
    total-replicate_zero is_busy (process given s.queue).1 idle refl,
  )
  serve-IsAccounted _ s h = ground arith

  -- What an action adds to the counters, against the worker's change of phase.
  pub record Counts (a b : MemoryJobQueue F) (x y : Phase) : Type 0 where
    pub starts :
        b.metrics.started_jobs + a.metrics.completed_jobs + a.metrics.failed_jobs + is_busy x
        ≡ a.metrics.started_jobs + b.metrics.completed_jobs + b.metrics.failed_jobs + is_busy y
    pub failures :
        b.metrics.retried_jobs + b.metrics.dead_lettered_jobs + a.metrics.failed_jobs
        ≤ a.metrics.retried_jobs + a.metrics.dead_lettered_jobs + b.metrics.failed_jobs
    pub enqueued : b.metrics.enqueued_jobs ≡ a.metrics.enqueued_jobs
    pub entries : b.next_entry ≡ a.next_entry

  act-Counts :
      (a : Action F) (phase : Phase) (q : MemoryJobQueue F)
      → Counts q (act a phase q).1 phase (act a phase q).0
  unfolding act
  act-Counts (ticks now) idle q = ground arith
  act-Counts (returns none r) (busy x) q = ground arith
  act-Counts (returns (some err) r) (busy x) q = ground arith
  act-Counts _ _ q = ground arith

  advance-IsAccounted :
      (i : ℕ) (s : System F) (x : Phase) (r : Phase × MemoryJobQueue F)
      → IsAccounted s
      → get_elem? s.pool i ≡ some x
      → Counts s.queue r.1 x r.0
      → IsAccounted (advance i s r)
  unfolding advance
  advance-IsAccounted i s x (y, q) h at_i k = omega (arith, total-set is_busy s.pool i x y at_i)

  step-IsAccounted : (e : Event F) (s : System F) → IsAccounted s → IsAccounted (step e s)
  unfolding step advance
  step-IsAccounted (call c) s h = serve-IsAccounted c s h
  step-IsAccounted (worker i a) s h = elim (Option-cases (get_elem? s.pool i)) [
    | inl e ↦ rw (e, step) h
    | inr (phase, e) ↦
        rw (e, step)
          (advance-IsAccounted i s phase (act a phase s.queue) h e (act-Counts a phase s.queue))
  ]

  -- After any schedule the metrics add up: the jobs started are those completed, those failed and
  -- those running; retries and dead letters are failures; and as many jobs were enqueued as entries
  -- were made.
  pub run-IsAccounted :
      (es : List (Event F)) (s : System F) → IsAccounted s → IsAccounted (run s es)
  unfolding run
  run-IsAccounted [] s h = h
  run-IsAccounted (e ∷ es) s h = run-IsAccounted es (step e s) (step-IsAccounted e s h)
