-- ===== src/Jobs/Cron.antt =====
-- jobs/cron_scheduler.go: CronScheduler. The cron library is a parameter, and so is what a job's
-- Execute returns.
pub mod Singletons
use microlib.Prelude.{
  ℕ, Bool, true, false, not, Option, none, some, List, [], ◌∷◌, ◌++◌, map, values, String, Dict,
  lookup, insert, string_eq, nat_eq, length, get_elem?, set, ◌&&◌, if◌then◌else◌,
}
use microlib.Jobs.RetryPolicy.{Float64}
use microlib.Jobs.Job.{JobStatus, running, completed, failed, JobMetadata, Job}

-- The cron library on a state `C`: `add_func` yields the number of the new entry, or `none` for a
-- specification that is not valid, and `next` is the next time of an entry.
pub record CronLibrary (C : Type 0) : Type 0 where
  pub add_func : String → C → Option (ℕ × C)
  pub next : ℕ → C → ℕ

pub record JobEntry (F : Float64) : Type 0 where
  pub job : Job F
  pub spec : String
  pub cron_id : ℕ
  pub next_run : ℕ
  pub last_run : Option ℕ
  pub last_err : Option String
  pub metadata : JobMetadata F

pub record JobExecution : Type 0 where
  pub job_id : String
  pub execution_id : ℕ
  pub start_time : ℕ
  pub end_time : Option ℕ
  pub status : JobStatus
  pub error : Option String
  pub instance_id : String

-- `store` holds the executions, and `executions` leads from their ids to their places in it. An id is
-- the time at which it was made, so that a later execution can take the place of one in the map.
pub record CronScheduler (F : Float64) (C : Type 0) : Type 0 where
  pub cron : C
  pub jobs : Dict String (JobEntry F)
  pub instance_id : String
  pub is_leader : Bool
  pub store : List JobExecution
  pub executions : Dict ℕ ℕ

pub data ScheduleError : Type 0 where
  already_scheduled invalid_spec : String → ScheduleError

-- What the scheduler's methods use of an elector: the leader it reports, or `none` for an error.
abbrev pub Report : Type 0
Report = Option Bool

-- localLeaderElector.
pub record LocalLeaderElector : Type 0 where
  pub leads : Bool

abbrev local_is_leader : LocalLeaderElector → Report
local_is_leader l = some l.leads

abbrev local_run_for_leader : LocalLeaderElector → LocalLeaderElector
local_run_for_leader l = record { leads = true }

abbrev local_resign_leadership : LocalLeaderElector → LocalLeaderElector
local_resign_leadership l = record { leads = false }

abbrev pub ended : ℕ → Option String → JobExecution → JobExecution
ended end_time none execution = record execution { end_time = some end_time; status = completed }
ended end_time (some err) execution = record execution {
  end_time = some end_time;
  status = failed;
  error = some err;
}

module _ {F : Float64} {C : Type 0} where
  unfoldable pub new_cron_scheduler : C → String → CronScheduler F C
  new_cron_scheduler cron instance_id = record {
    cron = cron;
    jobs = [];
    instance_id = instance_id;
    is_leader = false;
    store = [];
    executions = [];
  }

  unfoldable pub schedule :
      CronLibrary C → String → Job F → CronScheduler F C → Option ScheduleError × CronScheduler F C
  unfolding lookup insert
  schedule lib spec job s = elim (lookup job.id s.jobs) [
    | some entry ↦ (some (already_scheduled job.id), s)
    | none ↦ elim (lib.add_func spec s.cron) [
      | none ↦ (some (invalid_spec spec), s)
      | some (entry_id, cron) ↦
          let entry : JobEntry F = record {
            job = job;
            spec = spec;
            cron_id = entry_id;
            next_run = lib.next entry_id cron;
            last_run = none;
            last_err = none;
            metadata = job.metadata;
          } in
          (none, record s { cron = cron; jobs = insert job.id entry s.jobs })
    ]
  ]

  -- executeJob up to the call of Execute: the place of the new execution, or `none` if it is skipped.
  unfoldable pub begin_execution : ℕ → ℕ → Job F → CronScheduler F C → Option ℕ × CronScheduler F C
  unfolding insert
  begin_execution exec_id now job s =
      let execution : JobExecution = record {
        job_id = job.id;
        execution_id = exec_id;
        start_time = now;
        end_time = none;
        status = running;
        error = none;
        instance_id = s.instance_id;
      } in
      if job.metadata.singleton && not s.is_leader then (none, s) else (
        some (length s.store),
        record s {
          store = s.store ++ execution ∷ [];
          executions = insert exec_id (length s.store) s.executions;
        },
      )

  -- executeJob from the return of Execute on, with the error that it returned.
  unfoldable pub finish_execution :
      CronLibrary C → ℕ → ℕ → Option String → Job F → CronScheduler F C → CronScheduler F C
  unfolding lookup insert
  finish_execution lib place end_time err job s =
      let store : List JobExecution = elim (get_elem? s.store place) [
        | none ↦ s.store
        | some execution ↦ set s.store place (ended end_time err execution)
      ] in
      let jobs : Dict String (JobEntry F) = elim (lookup job.id s.jobs) [
        | none ↦ s.jobs
        | some entry ↦
            insert job.id
              (record entry {
                last_run = some end_time;
                last_err = err;
                next_run = lib.next entry.cron_id s.cron;
              })
              s.jobs
      ] in
      record s { store = store; jobs = jobs }

  -- A tick of leadershipMonitor.
  unfoldable pub monitor_tick : Report → CronScheduler F C → CronScheduler F C
  monitor_tick none s = s
  monitor_tick (some leads) s = record s { is_leader = leads }

  unfoldable jobs_of : CronScheduler F C → List (JobEntry F)
  jobs_of s = values s.jobs

-- What happens to a scheduler, in any order: a call of Schedule, an entry of cron that fires, an
-- Execute that returns, and a tick of the monitor.
pub data CronAct (F : Float64) : Type 0 where
  scheduling : String → Job F → CronAct F
  fire : ℕ → ℕ → Job F → CronAct F
  finish : ℕ → ℕ → Option String → Job F → CronAct F
  tick : Report → CronAct F

module _ {F : Float64} {C : Type 0} (lib : CronLibrary C) where
  unfoldable pub cron_act : CronAct F → CronScheduler F C → CronScheduler F C
  unfolding schedule begin_execution finish_execution monitor_tick
  cron_act (scheduling spec job) s = (schedule lib spec job s).1
  cron_act (fire exec_id now job) s = (begin_execution exec_id now job s).1
  cron_act (finish place end_time err job) s = finish_execution lib place end_time err job s
  cron_act (tick report) s = monitor_tick report s

  unfoldable pub cron_acts : List (CronAct F) → CronScheduler F C → CronScheduler F C
  unfolding cron_act
  cron_acts [] s = s
  cron_acts (a ∷ acts) s = cron_acts acts (cron_act a s)
