-- ===== src/Jobs/MemoryQueue/Cancel.antt =====
-- jobs/job_queue.go: what Cancel achieves, and what it does not.
use microlib.Prelude.{
  ℕ, ◌+◌, ◌<◌, ◌≡◌, refl, none, some, List, [], ◌∷◌, String, lookup, arith, get_elem?, inl, inr,
  Option-cases, total-set, total-append, total-replicate_zero, le-total, replicate, string_eq,
  if-rule, get_elem?-set_self,
}
use microlib.Jobs.RetryPolicy.{Float64}
use microlib.Jobs.Job.{cancelled, running}
use microlib.Jobs.MemoryQueue.{MemoryJobQueue, cancel, process}
use microlib.Jobs.MemoryQueue.Store.{count, count-push}
use microlib.Jobs.MemoryQueue.Worker.{not_yet, dequeue_from}
use microlib.Jobs.MemoryQueue.System.{
  System, Phase, idle, fetched, busy, stopped, Call, enqueues, cancels, requeues, processes, Action,
  ticks, begins, returns, quits, Event, call, worker, act, took, serve, advance, step, run,
}
use microlib.Jobs.MemoryQueue.Invariant.{IsConsistent, fetchers, runners, fetched_at, busy_at}
use microlib.Jobs.MemoryQueue.Invariant.Runs.{step-IsConsistent}
use microlib.Jobs.MemoryQueue.Invariant.Calls.{count-cancelled}

-- The entry at `p` is cancelled, and neither queued nor in a worker's hands.
pub record IsGone {F : Float64} (s : System F) (p : ℕ) : Type 0 where
  pub status : (s.queue.store p).status ≡ cancelled
  pub out : count p s.queue.queue + fetchers p s.pool + runners p s.pool ≡ 0
  pub below : p < s.queue.next_entry

module _ {F : Float64} (s : System F) (c : IsConsistent s) (p : ℕ) (g : IsGone s p) where
  serve-IsGone : (call : Call F) → IsGone (serve call s) p
  unfolding serve
  serve-IsGone (enqueues none delay now) = g
  serve-IsGone (enqueues (some job) delay now) =
      ground (arith, count-push p s.queue.next_entry s.queue.queue)
  serve-IsGone (cancels id now) = elim (Option-cases (lookup id s.queue.jobs)) [
    | inl e ↦ ground arith
    | inr (x, e) ↦ ground (arith, count-cancelled s c id x p e)
  ]
  serve-IsGone (requeues id now) = elim (Option-cases (lookup id s.queue.dead_lettered)) [
    | inl e ↦ ground arith
    | inr (x, e) ↦ ground (arith, c.named id x, count-push p x s.queue.queue)
  ]
  serve-IsGone (processes given) = record {
    status = g.status;
    out = omega (
      arith,
      g.out,
      total-append (fetched_at p) s.pool (replicate (process given s.queue).1 idle),
      total-append (busy_at p) s.pool (replicate (process given s.queue).1 idle),
      total-replicate_zero (fetched_at p) (process given s.queue).1 idle refl,
      total-replicate_zero (busy_at p) (process given s.queue).1 idle refl,
    );
    below = g.below;
  }
  serve-IsGone _ = ground arith

  calm-IsGone :
      (i : ℕ) (x y : Phase) (q : MemoryJobQueue F)
      → get_elem? s.pool i ≡ some x
      → fetched_at p y + busy_at p y ≡ 0
      → (q.store p).status ≡ cancelled
      → count p q.queue ≡ 0
      → p < q.next_entry
      → IsGone (advance i s (y, q)) p
  unfolding advance
  calm-IsGone i x y q at_i none_held still none_queued below = record {
    status = still;
    out = omega (
      arith,
      g.out,
      total-set (fetched_at p) s.pool i x y at_i,
      total-set (busy_at p) s.pool i x y at_i,
    );
    below = below;
  }

  dequeue-IsGone :
      (i : ℕ) (ps : List ℕ) (now : ℕ)
      → s.queue.queue ≡ ps
      → get_elem? s.pool i ≡ some idle
      → IsGone (advance i s (took (dequeue_from ps now s.queue))) p
  unfolding dequeue_from took
  dequeue-IsGone i [] now e at_i =
      calm-IsGone i idle idle s.queue at_i refl g.status (ground (arith, g.out)) g.below
  dequeue-IsGone i (x ∷ ps) now e at_i =
      if-rule (λ r. IsGone (advance i s (took r)) p) (not_yet (s.queue.store x).next_retry now) _ _
        (λ _.
          calm-IsGone i idle idle _ at_i refl g.status (ground (arith, g.out, count-push p x ps))
            g.below)
        (λ _.
          calm-IsGone i idle (fetched x) _ at_i (ground (arith, g.out)) g.status
            (ground (arith, g.out)) g.below)

  -- A worker does not hold the entry.
  not_held :
      (i : ℕ) (phase : Phase)
      → get_elem? s.pool i ≡ some phase
      → fetched_at p phase + busy_at p phase ≡ 0
  not_held i phase at_i = omega (
    arith,
    g.out,
    le-total (fetched_at p) s.pool i phase at_i,
    le-total (busy_at p) s.pool i phase at_i,
  )

  act-IsGone :
      (i : ℕ) (a : Action F) (phase : Phase)
      → get_elem? s.pool i ≡ some phase
      → IsGone (advance i s (act a phase s.queue)) p
  unfolding act
  act-IsGone i (ticks now) idle at_i = dequeue-IsGone i s.queue.queue now refl at_i
  act-IsGone i (begins now) (fetched x) at_i =
      calm-IsGone i (fetched x) (busy x) _ at_i (omega (arith, not_held i (fetched x) at_i))
        (ground (arith, g.status, not_held i (fetched x) at_i)) (ground (arith, g.out)) g.below
  act-IsGone i (returns none r) (busy x) at_i =
      calm-IsGone i (busy x) idle _ at_i refl (ground (arith, g.status, not_held i (busy x) at_i))
        (ground (arith, g.out)) g.below
  act-IsGone i (returns (some err) r) (busy x) at_i =
      calm-IsGone i (busy x) idle _ at_i refl (ground (arith, g.status, not_held i (busy x) at_i))
        (ground (arith, g.out, not_held i (busy x) at_i, count-push p x s.queue.queue))
        (ground (arith, g.below))
  act-IsGone i quits idle at_i =
      calm-IsGone i idle stopped s.queue at_i refl g.status (ground (arith, g.out)) g.below
  act-IsGone i _ phase at_i =
      calm-IsGone i phase phase s.queue at_i (not_held i phase at_i) g.status
        (ground (arith, g.out)) g.below

module _ {F : Float64} where
  step-IsGone :
      (e : Event F) (s : System F) (p : ℕ) → IsConsistent s → IsGone s p → IsGone (step e s) p
  unfolding step
  step-IsGone (call k) s p c g = serve-IsGone s c p g k
  step-IsGone (worker i a) s p c g = elim (Option-cases (get_elem? s.pool i)) [
    | inl e ↦ rw (e, step) g
    | inr (phase, e) ↦ rw (e, step) (act-IsGone s c p g i a phase e)
  ]

  run-IsGone :
      (es : List (Event F)) (s : System F) (p : ℕ)
      → IsConsistent s
      → IsGone s p
      → IsGone (run s es) p
  unfolding run
  run-IsGone [] s p c g = g
  run-IsGone (e ∷ es) s p c g =
      run-IsGone es (step e s) p (step-IsConsistent e s c) (step-IsGone e s p c g)

  cancel_removes :
      (s : System F) (id : String) (now p : ℕ)
      → IsConsistent s
      → lookup id s.queue.jobs ≡ some p
      → (cancel id now s.queue).0 ≡ none
      → fetchers p s.pool ≡ 0
      → IsGone (serve (cancels id now) s) p
  unfolding serve
  cancel_removes s id now p c at_id ok free =
      ground (arith, c.named id p, c.placed p, count-cancelled s c id p p at_id)

  -- In a consistent state, a job that Cancel accepts while no worker has taken it is cancelled for
  -- good: after any further schedule its entry is still cancelled, not queued, and in no worker's
  -- hands, so its handler is never called.
  pub cancel_is_final :
      (es : List (Event F)) (s : System F) (id : String) (now p : ℕ)
      → IsConsistent s
      → lookup id s.queue.jobs ≡ some p
      → (cancel id now s.queue).0 ≡ none
      → fetchers p s.pool ≡ 0
      → IsGone (run (step (call (cancels id now)) s) es) p
  unfolding step
  cancel_is_final es s id now p c at_id ok free =
      run-IsGone es _ p (step-IsConsistent (call (cancels id now)) s c)
        (cancel_removes s id now p c at_id ok free)

  -- A job that Cancel accepts after a worker has taken it from the queue, and before the worker
  -- has marked it, is run all the same: the worker's next step sets its status to running and
  -- enters the handler.
  pub cancel_overrun :
      (s : System F) (id : String) (now later p i : ℕ)
      → lookup id s.queue.jobs ≡ some p
      → (cancel id now s.queue).0 ≡ none
      → get_elem? s.pool i ≡ some (fetched p)
      → let t = run s (call (cancels id now) ∷ worker i (begins later) ∷ []) in
        ((t.queue.store p).status ≡ running) × (get_elem? t.pool i ≡ some (busy p))
  unfolding run
  cancel_overrun s id now later p i at_id ok at_i =
      ground (arith, get_elem?-set_self s.pool i (fetched p) (busy p) at_i)
