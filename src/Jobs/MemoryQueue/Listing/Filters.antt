-- ===== src/Jobs/MemoryQueue/Listing/Filters.antt =====
-- jobs/job_queue.go: what List and GetDeadLetteredJobs return.
use microlib.Prelude.{
  ℕ, zero, suc, ◌+◌, ◌≤◌, ◌<◌, ◌≡◌, refl, ap, true, false, some, List, [], ◌∷◌, map, values, length,
  take, drop, All, is_empty, ltb, ◌&&◌, arith, if◌then◌else◌, if-rule,
}
use microlib.Jobs.RetryPolicy.{Float64}
use microlib.Jobs.Job.{JobInfo, JobFilter}
use microlib.Jobs.MemoryQueue.{MemoryJobQueue, QueueJobEntry}
use microlib.Jobs.MemoryQueue.Listing.{
  info_of, status_matches, skips, collect, page, list, collect_dead, get_dead_lettered_jobs,
}

-- What a filter asks of a job.
pub record Satisfies {F : Float64} (filter : JobFilter) (i : JobInfo F) : Type 0 where
  pub status : is_empty filter.status ≡ false → status_matches filter.status i.status ≡ true
  pub not_before : (t : ℕ) → filter.start_time ≡ some t → t ≤ i.enqueued_at
  pub not_after : (t : ℕ) → filter.end_time ≡ some t → i.enqueued_at ≤ t

module _ {A : Type 0} where
  All-take : (P : A → Type 0) (n : ℕ) (xs : List A) → All P xs → All P (take n xs)
  All-take P zero xs h = tt
  All-take P (suc n) [] h = tt
  All-take P (suc n) (x ∷ xs) h = (h.0, All-take P n xs h.1)

  All-drop : (P : A → Type 0) (n : ℕ) (xs : List A) → All P xs → All P (drop n xs)
  All-drop P zero xs h = h
  All-drop P (suc n) [] h = tt
  All-drop P (suc n) (x ∷ xs) h = All-drop P n xs h.1

  length-take-le : (n : ℕ) (xs : List A) → length (take n xs) ≤ n
  length-take-le zero xs = omega arith
  length-take-le (suc n) [] = omega arith
  length-take-le (suc n) (x ∷ xs) = omega (arith, length-take-le n xs)

  All-page :
      (P : A → Type 0) (offset limit : ℕ) (xs : List A) → All P xs → All P (page offset limit xs)
  unfolding page
  All-page P offset limit xs h =
      if-rule (All P) (ltb 0 limit && ltb limit (length rest)) _ _ (λ _. All-take P limit rest kept)
        (λ _. kept)
    where
      rest : List A
      rest = if ltb 0 offset && ltb offset (length xs) then drop offset xs else xs

      kept : All P rest
      kept =
          if-rule (All P) (ltb 0 offset && ltb offset (length xs)) _ _ (λ _. All-drop P offset xs h)
            (λ _. h)

  length-page : (offset limit : ℕ) (xs : List A) → 0 < limit → length (page offset limit xs) ≤ limit
  unfolding page
  length-page offset limit xs h =
      ground (arith, length-take-le limit xs, length-take-le limit (drop offset xs))

  -- An offset at or past the end is ignored: the page starts at the first result again.
  pub page_past_end :
      (offset limit : ℕ) (xs : List A) → length xs ≤ offset → page offset limit xs ≡ page 0 limit xs
  unfolding page
  page_past_end offset limit xs h = ground arith

module _ {F : Float64} where
  collect-Satisfies :
      (filter : JobFilter) (store : ℕ → QueueJobEntry F) (ps : List ℕ)
      → All (Satisfies filter) (collect filter store ps)
  unfolding collect
  collect-Satisfies filter store [] = tt
  collect-Satisfies filter store (p ∷ ps) =
      if-rule (All (Satisfies filter)) (skips filter (store p)) _ _
        (λ _. collect-Satisfies filter store ps)
        (λ e. (
          record {
            status = λ h. ground arith;
            not_before = λ t h. ground arith;
            not_after = λ t h. ground arith;
          },
          collect-Satisfies filter store ps,
        ))

  -- Every job that List returns satisfies the filter: its status is one of those asked for, if any
  -- are, and it was enqueued within the times given.
  pub list-Satisfies :
      (filter : JobFilter) (q : MemoryJobQueue F) → All (Satisfies filter) (list filter q)
  unfolding list
  list-Satisfies filter q =
      All-page _ filter.offset filter.limit _ (collect-Satisfies filter q.store (values q.jobs))

  -- With a limit, List returns at most as many jobs.
  pub length-list :
      (filter : JobFilter) (q : MemoryJobQueue F)
      → 0 < filter.limit
      → length (list filter q) ≤ filter.limit
  unfolding list
  length-list filter q = length-page filter.offset filter.limit _

  limited :
      (limit count room : ℕ) (store : ℕ → QueueJobEntry F) (ps : List ℕ)
      → 0 < limit
      → limit ≡ count + room
      → collect_dead limit count store ps ≡ map (λ p. info_of (store p)) (take room ps)
  unfolding collect_dead
  limited limit count zero store [] h k = refl
  limited limit count zero store (p ∷ ps) h k = ground arith
  limited limit count (suc room) store [] h k = refl
  limited limit count (suc room) store (p ∷ ps) h k =
      ground (arith, limited limit (suc count) room store ps)

  unlimited :
      (count : ℕ) (store : ℕ → QueueJobEntry F) (ps : List ℕ)
      → collect_dead 0 count store ps ≡ map (λ p. info_of (store p)) ps
  unfolding collect_dead
  unlimited count store [] = refl
  unlimited count store (p ∷ ps) = ap (λ l. info_of (store p) ∷ l) (unlimited (suc count) store ps)

  -- GetDeadLetteredJobs returns the entries of the dead-letter map in the order in which it is
  -- visited: all of them with a limit of 0, and otherwise the first ones, up to the limit.
  pub get_dead_lettered_jobs-eq :
      (limit : ℕ) (q : MemoryJobQueue F)
      → get_dead_lettered_jobs limit q
        ≡ map
            (λ p. info_of (q.store p))
            (if ltb 0 limit then take limit (values q.dead_lettered) else values q.dead_lettered)
  unfolding get_dead_lettered_jobs
  get_dead_lettered_jobs-eq zero q = unlimited 0 q.store (values q.dead_lettered)
  get_dead_lettered_jobs-eq (suc n) q =
      ground (arith, limited (suc n) 0 (suc n) q.store (values q.dead_lettered))
