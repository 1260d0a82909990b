-- ===== src/Jobs/MemoryQueue/Invariant/Workers.antt =====
-- jobs/job_queue.go: the workers' steps keep MemoryJobQueue consistent.
use microlib.Prelude.{
  ℕ, suc, ◌+◌, ◌≡◌, refl, ap, Option, none, some, List, [], ◌∷◌, ◌++◌, String, Dict, string_eq,
  arith, if-rule, lookup, insert, lookup-insert, total-set, le-total, get_elem?, set,
}
use microlib.Jobs.RetryPolicy.{Float64, should_retry}
use microlib.Jobs.Job.{JobQueueMetrics, failed}
use microlib.Jobs.MemoryQueue.{MemoryJobQueue, QueueJobEntry, update}
use microlib.Jobs.MemoryQueue.Worker.{
  Readings, dequeue_from, not_yet, mark_running, finish_job, settle, fail_entry, complete_entry,
  retry_entry, dead_letter_entry,
}
use microlib.Jobs.MemoryQueue.Store.{is_at, count-push}
use microlib.Jobs.MemoryQueue.System.{
  System, Phase, idle, fetched, busy, stopped, act, took, advance, Action, ticks, begins, returns,
  quits,
}
use microlib.Jobs.MemoryQueue.Invariant.{IsConsistent, fetchers, runners, fetched_at, busy_at}

at_self : (p : ℕ) → is_at p p ≡ 1
at_self p = ground arith

module _ {F : Float64} {s : System F} (c : IsConsistent s) where
  skip-IsConsistent :
      (p : ℕ) (ps : List ℕ)
      → s.queue.queue ≡ p ∷ ps
      → IsConsistent (record s { queue = record s.queue { queue = ps ++ p ∷ [] } })
  skip-IsConsistent p ps e = record {
    placed = λ x. ground (arith, c.placed x, count-push x p ps);
    named = λ k x. ground (arith, c.named k x, count-push x p ps);
  }

module _ {F : Float64} {s : System F} (c : IsConsistent s) (i : ℕ) where
  -- A worker that holds nothing before or after moves freely.
  calm-IsConsistent :
      (a b : Phase)
      → get_elem? s.pool i ≡ some a
      → ((x : ℕ) → (fetched_at x a ≡ fetched_at x b) × (busy_at x a ≡ busy_at x b))
      → IsConsistent (advance i s (b, s.queue))
  unfolding advance
  calm-IsConsistent a b at_i alike = record {
    placed = λ x. ground (
      arith,
      c.placed x,
      alike x,
      total-set (fetched_at x) s.pool i a b at_i,
      total-set (busy_at x) s.pool i a b at_i,
    );
    named = λ k x. ground (
      arith,
      c.named k x,
      alike x,
      total-set (fetched_at x) s.pool i a b at_i,
      total-set (busy_at x) s.pool i a b at_i,
    );
  }

  take-IsConsistent :
      (p : ℕ) (ps : List ℕ) (now : ℕ)
      → get_elem? s.pool i ≡ some idle
      → s.queue.queue ≡ p ∷ ps
      → IsConsistent (
          advance i s (
            fetched p,
            record s.queue {
              queue = ps;
              processing = insert (s.queue.store p).job.id p s.queue.processing;
            },
          ))
  unfolding advance
  take-IsConsistent p ps now at_i e = record {
    placed = λ x. ground (
      arith,
      c.placed x,
      total-set (fetched_at x) s.pool i idle (fetched p) at_i,
      total-set (busy_at x) s.pool i idle (fetched p) at_i,
    );
    named = λ k x. ground (
      arith,
      c.named k x,
      total-set (fetched_at x) s.pool i idle (fetched p) at_i,
      total-set (busy_at x) s.pool i idle (fetched p) at_i,
    );
  }

  begin-IsConsistent :
      (p now : ℕ)
      → get_elem? s.pool i ≡ some (fetched p)
      → IsConsistent (advance i s (busy p, mark_running p now s.queue))
  unfolding advance mark_running
  begin-IsConsistent p now at_i = record {
    placed = λ x. ground (
      arith,
      c.placed x,
      total-set (fetched_at x) s.pool i (fetched p) (busy p) at_i,
      total-set (busy_at x) s.pool i (fetched p) (busy p) at_i,
    );
    named = λ k x. ground (
      arith,
      c.placed x,
      c.named k x,
      total-set (fetched_at x) s.pool i (fetched p) (busy p) at_i,
      total-set (busy_at x) s.pool i (fetched p) (busy p) at_i,
    );
  }

  module _ (p : ℕ) (e : QueueJobEntry F) (r : Readings F) (same : e.job ≡ (s.queue.store p).job)
      (at_i : get_elem? s.pool i ≡ some (busy p)) where
    left :
        (x : ℕ)
        → (fetchers x (set s.pool i idle) ≡ fetchers x s.pool)
          × (runners x (set s.pool i idle) + is_at x p ≡ runners x s.pool)
    left x = ground (
      arith,
      total-set (fetched_at x) s.pool i (busy p) idle at_i,
      total-set (busy_at x) s.pool i (busy p) idle at_i,
    )

    held : lookup (s.queue.store p).job.id s.queue.jobs ≡ some p
    held =
        (c.placed p).owned (omega (arith, le-total (busy_at p) s.pool i (busy p) at_i, at_self p))

    same_id : e.job.id ≡ (s.queue.store p).job.id
    same_id = ap (λ j. j.id) same

    complete-IsConsistent : IsConsistent (advance i s (idle, complete_entry p e s.queue))
    unfolding advance complete_entry
    complete-IsConsistent = record {
      placed = λ x. ground (arith, c.placed x, left x, same_id);
      named = λ k x. ground (arith, c.named k x, c.placed x, left x, same_id);
    }

    retry-IsConsistent : IsConsistent (advance i s (idle, retry_entry p e r s.queue))
    unfolding advance retry_entry
    retry-IsConsistent = record {
      placed = λ x. ground (arith, c.placed x, left x, same_id, held, count-push x p s.queue.queue);
      named = λ k x.
          ground
            (arith, c.named k x, c.placed x, left x, same_id, held, count-push x p s.queue.queue);
    }

    dead_letter-IsConsistent : IsConsistent (advance i s (idle, dead_letter_entry p e s.queue))
    unfolding advance dead_letter_entry
    dead_letter-IsConsistent = record {
      placed = λ x. ground (arith, c.placed x, left x, same_id);
      named = λ k x. ground (
        arith,
        c.named k x,
        c.placed x,
        left x,
        same_id,
        held,
        lookup-insert e.job.id k p s.queue.dead_lettered,
        string_eq.equal_iff e.job.id k,
      );
    }

    plain_failure-IsConsistent :
        e.status ≡ failed
        → IsConsistent (advance i s (idle, record s.queue { store = update s.queue.store p e }))
    unfolding advance
    plain_failure-IsConsistent f = record {
      placed = λ x. ground (arith, c.placed x, left x, same_id);
      named = λ k x. ground (arith, c.named k x, c.placed x, left x, same_id);
    }

module _ {F : Float64} (q : MemoryJobQueue F) (pool : List Phase)
    (c : IsConsistent (record { queue = q; pool = pool })) where
  metrics-IsConsistent :
      (m : JobQueueMetrics)
      → IsConsistent (record { queue = record q { metrics = m }; pool = pool })
  metrics-IsConsistent m = record {
    placed = λ x. ground (arith, c.placed x);
    named = λ k x. ground (arith, c.named k x);
  }

  processing-IsConsistent :
      (m : Dict String ℕ)
      → IsConsistent (record { queue = record q { processing = m }; pool = pool })
  processing-IsConsistent m = record {
    placed = λ x. ground (arith, c.placed x);
    named = λ k x. ground (arith, c.named k x);
  }

module _ {F : Float64} {s : System F} (c : IsConsistent s) (i p : ℕ)
    (at_i : get_elem? s.pool i ≡ some (busy p)) where
  fail-IsConsistent :
      (e : QueueJobEntry F) (err : String) (r : Readings F)
      → e.job ≡ (s.queue.store p).job
      → IsConsistent (advance i s (idle, fail_entry p e err r s.queue))
  unfolding fail_entry advance
  fail-IsConsistent e err r same =
      let m = record s.queue.metrics { failed_jobs = suc s.queue.metrics.failed_jobs } in
      let c' = metrics-IsConsistent s.queue s.pool c m in
      let e' = record e { error = some err; status = failed } in
      if-rule Good (should_retry F e.job.metadata.retry_policy (suc e.retry_count)) _ _
        (λ _. retry-IsConsistent c' i p e' r same at_i)
        (λ _.
          if-rule Good s.queue.config.dead_letter_enabled _ _
            (λ _. dead_letter-IsConsistent c' i p e' r same at_i)
            (λ _. plain_failure-IsConsistent c' i p e' r same at_i refl))
    where
      Good : MemoryJobQueue F → Type 0
      Good q = IsConsistent (advance i s (idle, q))

  settle-IsConsistent :
      (e : QueueJobEntry F) (err : Option String) (r : Readings F)
      → e.job ≡ (s.queue.store p).job
      → IsConsistent (advance i s (idle, settle p e err r s.queue))
  unfolding settle
  settle-IsConsistent e none r same = complete-IsConsistent c i p e r same at_i
  settle-IsConsistent e (some err) r same = fail-IsConsistent e err r same

module _ {F : Float64} {s : System F} (c : IsConsistent s) (i : ℕ) where
  finish-IsConsistent :
      (p : ℕ) (err : Option String) (r : Readings F)
      → get_elem? s.pool i ≡ some (busy p)
      → IsConsistent (advance i s (idle, finish_job p err r s.queue))
  unfolding finish_job advance
  finish-IsConsistent p err r at_i =
      let m = record s.queue.metrics { job_duration = r.duration ∷ s.queue.metrics.job_duration } in
      let c' = metrics-IsConsistent s.queue s.pool c m in
      processing-IsConsistent _ (set s.pool i idle)
        (settle-IsConsistent c' i p at_i
          (record (s.queue.store p) { finished_at = some r.finish_time }) err r refl)
        _

  dequeue-IsConsistent :
      (ps : List ℕ) (now : ℕ)
      → s.queue.queue ≡ ps
      → get_elem? s.pool i ≡ some idle
      → IsConsistent (advance i s (took (dequeue_from ps now s.queue)))
  unfolding dequeue_from took advance
  dequeue-IsConsistent [] now e at_i = calm-IsConsistent c i idle idle at_i (λ x. (refl, refl))
  dequeue-IsConsistent (p ∷ ps) now e at_i =
      if-rule (λ r. IsConsistent (advance i s (took r))) (not_yet (s.queue.store p).next_retry now)
        _ _
        (λ _. calm-IsConsistent (skip-IsConsistent c p ps e) i idle idle at_i (λ x. (refl, refl)))
        (λ _. take-IsConsistent c i p ps now at_i e)

  pub act-IsConsistent :
      (a : Action F) (phase : Phase)
      → get_elem? s.pool i ≡ some phase
      → IsConsistent (advance i s (act a phase s.queue))
  unfolding act
  act-IsConsistent (ticks now) idle at_i = dequeue-IsConsistent s.queue.queue now refl at_i
  act-IsConsistent (begins now) (fetched p) at_i = begin-IsConsistent c i p now at_i
  act-IsConsistent (returns err r) (busy p) at_i = finish-IsConsistent p err r at_i
  act-IsConsistent quits idle at_i = calm-IsConsistent c i idle stopped at_i (λ x. (refl, refl))
  act-IsConsistent _ phase at_i = calm-IsConsistent c i phase phase at_i (λ x. (refl, refl))
