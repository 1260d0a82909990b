-- ===== src/Jobs/MemoryQueue/Invariant/Calls.antt =====
-- jobs/job_queue.go: the calls of MemoryJobQueue keep it consistent.
use microlib.Prelude.{
  ℕ, ◌-◌, ◌<◌, ◌≡◌, refl, ap, Option, none, some, ◌++◌, String, nat_beq, ◌==◌, string_eq,
  if◌then◌else◌, arith, total-append, inl, inr, if-rule, lookup, lookup-insert, lookup-delete,
  Option-cases, total-replicate_zero, replicate,
}
use microlib.Jobs.RetryPolicy.{Float64}
use microlib.Jobs.Job.{Job, JobError, status_beq, pending}
use microlib.Jobs.MemoryQueue.{
  MemoryJobQueue, add_entry, remove_first, enqueue_with_delay, cancel, cancel_entry, requeue_entry,
  requeue_dead_lettered_job, purge_dead_lettered_job, process,
}
use microlib.Jobs.MemoryQueue.Store.{count, count-push, count-remove_first}
use microlib.Jobs.MemoryQueue.System.{
  System, idle, serve, Call, enqueues, cancels, requeues, purges, processes, closes,
}
use microlib.Jobs.MemoryQueue.Invariant.{
  IsConsistent, IsPlaced, IsNamed, fetchers, fetched_at, busy_at, runners, unused, unnamed,
}

module _ {F : Float64} (s : System F) (c : IsConsistent s) where
  add-IsPlaced :
      (job : Job F) (delay now p : ℕ)
      → lookup job.id s.queue.jobs ≡ none
      → IsPlaced (record s { queue = add_entry s.queue job delay now }) p
  unfolding add_entry
  add-IsPlaced job delay now p new = record {
    once = ground (arith, c.placed p, unused c, count-push p s.queue.next_entry s.queue.queue);
    owned = λ h. ground (
      arith,
      c.placed p,
      unused c,
      count-push p s.queue.next_entry s.queue.queue,
      lookup-insert job.id job.id s.queue.next_entry s.queue.jobs,
      lookup-insert job.id (s.queue.store p).job.id s.queue.next_entry s.queue.jobs,
      string_eq.equal_iff job.id (s.queue.store p).job.id,
      string_eq.equal_iff job.id job.id,
    );
    queued =
        λ h. ground (arith, c.placed p, unused c, count-push p s.queue.next_entry s.queue.queue);
    taken = λ h. ground (arith, c.placed p, unused c);
    running = λ h. ground (arith, c.placed p, unused c);
  }

  add-IsNamed :
      (job : Job F) (delay now : ℕ) (id : String) (p : ℕ)
      → lookup job.id s.queue.jobs ≡ none
      → IsNamed (record s { queue = add_entry s.queue job delay now }) id p
  unfolding add_entry
  add-IsNamed job delay now id p new = ground (
    arith,
    c.named id p,
    unused c,
    unnamed c id,
    count-push p s.queue.next_entry s.queue.queue,
    lookup-insert job.id id s.queue.next_entry s.queue.jobs,
    string_eq.equal_iff job.id id,
  )

  -- In the queue only the entry named `id` has that id.
  only_named :
      (id : String) (p y : ℕ)
      → lookup id s.queue.jobs ≡ some p
      → 0 < count y s.queue.queue
      → (s.queue.store y).job.id ≡ id
      → y ≡ p
  only_named id p y at_id m e =
      ground (arith, (c.placed y).owned (omega arith), ap (λ k. lookup k s.queue.jobs) e)

  pub count-cancelled :
      (id : String) (p x : ℕ)
      → lookup id s.queue.jobs ≡ some p
      → count x (remove_first s.queue.store id s.queue.queue)
        ≡ (if nat_beq x p then count x s.queue.queue - 1 else count x s.queue.queue)
  count-cancelled id p x at_id =
      count-remove_first s.queue.store id p s.queue.queue x ((c.named id p).named at_id).0
        (λ y m e. only_named id p y at_id m e)

  cancel-IsPlaced :
      (id : String) (now p x : ℕ)
      → lookup id s.queue.jobs ≡ some p
      → (s.queue.store p).status ≡ pending
      → IsPlaced (record s { queue = cancel_entry s.queue id p now }) x
  unfolding cancel_entry
  cancel-IsPlaced id now p x at_id waits =
      ground (arith, c.placed x, c.named id p, count-cancelled id p x at_id)

  cancel-IsNamed :
      (id : String) (now p : ℕ) (k : String) (x : ℕ)
      → lookup id s.queue.jobs ≡ some p
      → (s.queue.store p).status ≡ pending
      → IsNamed (record s { queue = cancel_entry s.queue id p now }) k x
  unfolding cancel_entry
  cancel-IsNamed id now p k x at_id waits =
      ground (arith, c.placed x, c.named id p, c.named k x, count-cancelled id p x at_id)

  requeue-IsPlaced :
      (id : String) (now p x : ℕ)
      → lookup id s.queue.dead_lettered ≡ some p
      → IsPlaced (record s { queue = requeue_entry s.queue id p now }) x
  unfolding requeue_entry
  requeue-IsPlaced id now p x dead =
      ground (arith, c.placed x, c.named id p, count-push x p s.queue.queue)

  requeue-IsNamed :
      (id : String) (now p : ℕ) (k : String) (x : ℕ)
      → lookup id s.queue.dead_lettered ≡ some p
      → IsNamed (record s { queue = requeue_entry s.queue id p now }) k x
  unfolding requeue_entry
  requeue-IsNamed id now p k x dead = ground (
    arith,
    c.placed x,
    c.named id p,
    c.named k x,
    count-push x p s.queue.queue,
    lookup-delete id k s.queue.dead_lettered,
    string_eq.equal_iff id k,
  )

  purge-IsPlaced :
      (id : String) (p x : ℕ)
      → lookup id s.queue.dead_lettered ≡ some p
      → IsPlaced (record s { queue = (purge_dead_lettered_job id s.queue).1 }) x
  unfolding purge_dead_lettered_job
  purge-IsPlaced id p x dead = ground (
    arith,
    c.placed x,
    c.named id p,
    lookup-delete id (s.queue.store x).job.id s.queue.jobs,
    string_eq.equal_iff id (s.queue.store x).job.id,
  )

  purge-IsNamed :
      (id : String) (p : ℕ) (k : String) (x : ℕ)
      → lookup id s.queue.dead_lettered ≡ some p
      → IsNamed (record s { queue = (purge_dead_lettered_job id s.queue).1 }) k x
  unfolding purge_dead_lettered_job
  purge-IsNamed id p k x dead = ground (
    arith,
    c.named id p,
    c.named k x,
    lookup-delete id k s.queue.jobs,
    lookup-delete id k s.queue.dead_lettered,
    string_eq.equal_iff id k,
  )

  enqueue-IsConsistent :
      (job : Option (Job F)) (delay now : ℕ)
      → IsConsistent (record s { queue = (enqueue_with_delay job delay now s.queue).1 })
  unfolding enqueue_with_delay
  enqueue-IsConsistent none delay now = c
  enqueue-IsConsistent (some job) delay now =
      if-rule Good (job.id == "") _ _ (λ _. c)
        (λ _.
          if-rule Good s.queue.closed _ _ (λ _. c)
            (λ _. elim (Option-cases (lookup job.id s.queue.jobs)) [
              | inl e ↦ simp e (record {
                placed = λ p. add-IsPlaced job delay now p e;
                named = λ id p. add-IsNamed job delay now id p e;
              })
              | inr (p, e) ↦ simp e c
            ]))
    where
      Good : Option JobError × MemoryJobQueue F → Type 0
      Good r = IsConsistent (record s { queue = r.1 })

  cancel-IsConsistent :
      (id : String) (now : ℕ) → IsConsistent (record s { queue = (cancel id now s.queue).1 })
  unfolding cancel
  cancel-IsConsistent id now =
      if-rule Good (id == "") _ _ (λ _. c)
        (λ _. elim (Option-cases (lookup id s.queue.jobs)) [
          | inl e ↦ simp e c
          | inr (p, e) ↦ simp e (
              if-rule Good (status_beq (s.queue.store p).status pending) _ _
                (λ waits. record {
                  placed = λ x. cancel-IsPlaced id now p x e (ground arith);
                  named = λ k x. cancel-IsNamed id now p k x e (ground arith);
                })
                (λ _. c))
        ])
    where
      Good : Option JobError × MemoryJobQueue F → Type 0
      Good r = IsConsistent (record s { queue = r.1 })

  requeue-IsConsistent :
      (id : String) (now : ℕ)
      → IsConsistent (record s { queue = (requeue_dead_lettered_job id now s.queue).1 })
  unfolding requeue_dead_lettered_job
  requeue-IsConsistent id now = elim (Option-cases (lookup id s.queue.dead_lettered)) [
    | inl e ↦ simp (e, requeue_dead_lettered_job) c
    | inr (p, e) ↦
        simp (e, requeue_dead_lettered_job)
          (record {
            placed = λ x. requeue-IsPlaced id now p x e;
            named = λ k x. requeue-IsNamed id now p k x e;
          })
  ]

  process-IsConsistent : (n : ℕ) → IsConsistent (record s { pool = s.pool ++ replicate n idle })
  process-IsConsistent n = record {
    placed = λ x. ground (arith, c.placed x, idle_fetch x, idle_run x);
    named = λ k x. ground (arith, c.named k x, idle_fetch x, idle_run x);
  }
    where
      idle_fetch : (x : ℕ) → fetchers x (s.pool ++ replicate n idle) ≡ fetchers x s.pool
      idle_fetch x = omega (
        arith,
        total-append (fetched_at x) s.pool (replicate n idle),
        total-replicate_zero (fetched_at x) n idle refl,
      )

      idle_run : (x : ℕ) → runners x (s.pool ++ replicate n idle) ≡ runners x s.pool
      idle_run x = omega (
        arith,
        total-append (busy_at x) s.pool (replicate n idle),
        total-replicate_zero (busy_at x) n idle refl,
      )

  purge-IsConsistent :
      (id : String) → IsConsistent (record s { queue = (purge_dead_lettered_job id s.queue).1 })
  unfolding purge_dead_lettered_job
  purge-IsConsistent id = elim (Option-cases (lookup id s.queue.dead_lettered)) [
    | inl e ↦ simp (e, purge_dead_lettered_job) c
    | inr (p, e) ↦ record {
      placed = λ x. purge-IsPlaced id p x e;
      named = λ k x. purge-IsNamed id p k x e;
    }
  ]

  pub serve-IsConsistent : (call : Call F) → IsConsistent (serve call s)
  unfolding serve
  serve-IsConsistent (enqueues job delay now) = enqueue-IsConsistent job delay now
  serve-IsConsistent (cancels id now) = cancel-IsConsistent id now
  serve-IsConsistent (requeues id now) = requeue-IsConsistent id now
  serve-IsConsistent (purges id) = purge-IsConsistent id
  serve-IsConsistent (processes given) = process-IsConsistent (process given s.queue).1
  serve-IsConsistent closes = record {
    placed = λ p. ground (arith, c.placed p);
    named = λ id p. ground (arith, c.named id p);
  }
