-- ===== src/Jobs/Cron/Singletons.antt =====
-- jobs/cron_scheduler.go: executions, and when jobs that are singletons run.
use microlib.Prelude.{
  ℕ, zero, suc, Bool, true, false, not, Option, none, some, List, [], ◌∷◌, ◌++◌, String, Dict,
  lookup, insert, string_eq, get_elem?, set, ◌≡◌, ◌⊎◌, refl, ap, ◌∙◌, inl, inr, All, Bool-cases,
  Option-cases, arith, ◌&&◌, ◌||◌, HasUniqueKeys, insert-HasUniqueKeys,
}
use microlib.Jobs.RetryPolicy.{Float64}
use microlib.Jobs.Job.{running, completed, failed, Job}
use microlib.Jobs.Cron.{
  CronLibrary, JobExecution, CronScheduler, new_cron_scheduler, schedule, begin_execution,
  finish_execution, ended, monitor_tick, CronAct, scheduling, fire, finish, tick, cron_act,
  cron_acts,
}

abbrev pub is_some : {A : Type 0} → Option A → Bool
is_some none = false
is_some (some a) = true

-- An execution that runs has no end and no error; one that has ended has an end, and if it has failed
-- an error.
abbrev IsRecorded : JobExecution → Type 0
IsRecorded e =
    ((e.status ≡ running) × (is_some e.end_time ≡ false) × (is_some e.error ≡ false))
    ⊎ (((e.status ≡ completed) × (is_some e.end_time ≡ true))
        ⊎ ((e.status ≡ failed) × (is_some e.end_time ≡ true) × (is_some e.error ≡ true)))

ended-IsRecorded : (now : ℕ) (err : Option String) (e : JobExecution) → IsRecorded (ended now err e)
ended-IsRecorded now none e = inr (inl (refl, refl))
ended-IsRecorded now (some err) e = inr (inr (refl, refl, refl))

All-set :
    {A : Type 0} (P : A → Type 0) (xs : List A) (i : ℕ) (a : A)
    → All P xs
    → P a
    → All P (set xs i a)
All-set P [] i a all p = tt
All-set P (x ∷ xs) zero a all p = (p, all.1)
All-set P (x ∷ xs) (suc i) a all p = (all.0, All-set P xs i a all.1 p)

All-add :
    {A : Type 0} (P : A → Type 0) (xs : List A) (a : A) → All P xs → P a → All P (xs ++ a ∷ [])
All-add P [] a all p = (p, tt)
All-add P (x ∷ xs) a all p = (all.0, All-add P xs a all.1 p)

jobs_kept :
    {V : Type 0} (id : String) (jobs : Dict String V) (found : Option V) (change : V → V)
    → HasUniqueKeys jobs
    → HasUniqueKeys (elim found [ none ↦ jobs | some entry ↦ insert id (change entry) jobs ])
jobs_kept id jobs none change unique = unique
jobs_kept id jobs (some entry) change unique = insert-HasUniqueKeys id (change entry) jobs unique

store_kept :
    (place : ℕ) (store : List JobExecution) (found : Option JobExecution)
    (change : JobExecution → JobExecution)
    → ((e : JobExecution) → IsRecorded (change e))
    → All IsRecorded store
    → All IsRecorded (elim found [ none ↦ store | some e ↦ set store place (change e) ])
store_kept place store none change p all = all
store_kept place store (some e) change p all = All-set IsRecorded store place (change e) all (p e)

-- What the monitor heard last of the elector, errors left out.
unfoldable pub last_report : {F : Float64} → Bool → List (CronAct F) → Bool
last_report leads [] = leads
last_report leads (tick (some report) ∷ acts) = last_report report acts
last_report leads (a ∷ acts) = last_report leads acts

-- Each id has one entry, and each execution is recorded as what it is.
abbrev pub IsKept : {F : Float64} {C : Type 0} → CronScheduler F C → Type 0
IsKept s = HasUniqueKeys s.jobs × All IsRecorded s.store

module _ {F : Float64} {C : Type 0} (lib : CronLibrary C) where
  schedule-is_leader :
      (spec : String) (job : Job F) (s : CronScheduler F C)
      → (schedule lib spec job s).1.is_leader ≡ s.is_leader
  unfolding schedule
  schedule-is_leader spec job s = elim (Option-cases (lookup job.id s.jobs)) [
    | inr (entry, there) ↦ rw (schedule, there) refl
    | inl free ↦ elim (Option-cases (lib.add_func spec s.cron)) [
      | inl bad ↦ rw (schedule, free, bad) refl
      | inr (added, good) ↦ rw (schedule, free, good) refl
    ]
  ]

  begin-is_leader :
      (id now : ℕ) (job : Job F) (s : CronScheduler F C)
      → (begin_execution id now job s).1.is_leader ≡ s.is_leader
  unfolding begin_execution
  begin-is_leader id now job s = elim (Bool-cases (job.metadata.singleton && not s.is_leader)) [
    | inl skip ↦ rw skip refl
    | inr go ↦ rw go refl
  ]

  cron_acts-last_report :
      (acts : List (CronAct F)) (s : CronScheduler F C)
      → (cron_acts lib acts s).is_leader ≡ last_report s.is_leader acts
  unfolding cron_acts cron_act last_report finish_execution monitor_tick
  cron_acts-last_report [] s = refl
  cron_acts-last_report (scheduling spec job ∷ acts) s =
      cron_acts-last_report acts (schedule lib spec job s).1
      ∙ ap (λ b. last_report b acts) (schedule-is_leader spec job s)
  cron_acts-last_report (fire id now job ∷ acts) s =
      cron_acts-last_report acts (begin_execution id now job s).1
      ∙ ap (λ b. last_report b acts) (begin-is_leader id now job s)
  cron_acts-last_report (finish place now err job ∷ acts) s =
      cron_acts-last_report acts (finish_execution lib place now err job s)
  cron_acts-last_report (tick none ∷ acts) s = cron_acts-last_report acts s
  cron_acts-last_report (tick (some report) ∷ acts) s =
      cron_acts-last_report acts (record s { is_leader = report })

  -- When an entry of cron fires, whatever happened before, its job runs exactly if it is no singleton
  -- or the monitor's last successful tick heard that the instance leads. Before the first tick a
  -- singleton does not run, whatever the elector would say.
  pub begin_execution-last_report :
      (cron : C) (instance_id : String) (acts : List (CronAct F)) (id now : ℕ) (job : Job F)
      → let s = cron_acts lib acts (new_cron_scheduler cron instance_id) in
        is_some (begin_execution id now job s).0
        ≡ (not job.metadata.singleton || last_report false acts)
  unfolding begin_execution new_cron_scheduler
  begin_execution-last_report cron instance_id acts id now job =
      let heard = cron_acts-last_report acts (new_cron_scheduler cron instance_id) in
      ground (arith, heard)

  schedule-IsKept :
      (spec : String) (job : Job F) (s : CronScheduler F C)
      → IsKept s
      → IsKept (schedule lib spec job s).1
  unfolding schedule
  schedule-IsKept spec job s kept = elim (Option-cases (lookup job.id s.jobs)) [
    | inr (entry, there) ↦ rw (schedule, there) kept
    | inl free ↦ elim (Option-cases (lib.add_func spec s.cron)) [
      | inl bad ↦ rw (schedule, free, bad) kept
      | inr (added, good) ↦
          rw (schedule, free, good) (insert-HasUniqueKeys job.id _ s.jobs kept.0, kept.1)
    ]
  ]

  begin-IsKept :
      (id now : ℕ) (job : Job F) (s : CronScheduler F C)
      → IsKept s
      → IsKept (begin_execution id now job s).1
  unfolding begin_execution
  begin-IsKept id now job s kept = elim (Bool-cases (job.metadata.singleton && not s.is_leader)) [
    | inl skip ↦ rw skip kept
    | inr go ↦ rw go (kept.0, All-add IsRecorded s.store _ kept.1 (inl (refl, refl, refl)))
  ]

  cron_act-IsKept : (a : CronAct F) (s : CronScheduler F C) → IsKept s → IsKept (cron_act lib a s)
  unfolding cron_act begin_execution finish_execution monitor_tick
  cron_act-IsKept (scheduling spec job) s kept = schedule-IsKept spec job s kept
  cron_act-IsKept (fire id now job) s kept = begin-IsKept id now job s kept
  cron_act-IsKept (finish place now err job) s kept = (
    jobs_kept job.id s.jobs (lookup job.id s.jobs) _ kept.0,
    store_kept place s.store (get_elem? s.store place) (ended now err) (ended-IsRecorded now err)
        kept.1,
  )
  cron_act-IsKept (tick none) s kept = kept
  cron_act-IsKept (tick (some report)) s kept = kept

  -- Whatever happens to a new scheduler, each id has one entry, and every execution that it recorded is
  -- running without an end, completed with one, or failed with an end and an error.
  pub cron_acts-IsKept :
      (acts : List (CronAct F)) (s : CronScheduler F C) → IsKept s → IsKept (cron_acts lib acts s)
  unfolding cron_acts
  cron_acts-IsKept [] s kept = kept
  cron_acts-IsKept (a ∷ acts) s kept =
      cron_acts-IsKept acts (cron_act lib a s) (cron_act-IsKept a s kept)
