-- ===== src/Tests/SchedulerTests.antt =====
-- jobs/: a scheduler with a singleton, and an elector whose lease runs out.
use microlib.Prelude.{ℕ, ◌+◌, ◌≡◌, refl, true, false, not, some, [], ◌∷◌, ◌||◌, text_eq, string_eq}
use microlib.Text.{text}
use microlib.Jobs.Job.{Job}
use microlib.Jobs.Leader.{
  LeaderElectionConfig, MemoryLeaderElector, new_memory_leader_elector, is_leader, run_for_leader,
  act_all, check, renewal, resign,
}
use microlib.Jobs.Leader.Lease.{run_for_leader_ends, lost_for_good}
use microlib.Jobs.Cron.{CronLibrary, new_cron_scheduler, begin_execution, cron_acts, scheduling}
use microlib.Jobs.Cron.Singletons.{is_some, last_report, begin_execution-last_report}
use microlib.Tests.JobsTests.{whole, job}

abbrev election : LeaderElectionConfig
election = record {
  lease_duration = 15;
  renew_deadline = 10;
  retry_period = 2;
  lease_name = text "lease";
  identity = text "me";
}

run_for_leader_ends_example :
    let m = act_all (check 3 ∷ resign ∷ []) (new_memory_leader_elector election) in
    ((run_for_leader (5 ∷ 7 ∷ []) m).0 ≡ some 5)
    × ((is_leader 5 (run_for_leader (5 ∷ 7 ∷ []) m).1).0 ≡ true)
run_for_leader_ends_example = run_for_leader_ends election (check 3 ∷ resign ∷ []) 5 (7 ∷ [])

abbrev led : MemoryLeaderElector
led = record { leader = text "me"; lease_expiry = 20; config = election }

lost_for_good_example : (is_leader 22 (act_all (renewal 22 ∷ []) (is_leader 21 led).1)).0 ≡ false
lost_for_good_example = lost_for_good led 21 22 (renewal 22 ∷ []) refl refl (refl, tt)

-- Every specification is accepted, and the state counts the entries.
abbrev cron : CronLibrary ℕ
cron = record { add_func = λ spec n. some (n, n + 1); next = λ id n. 100 }

abbrev lone : Job whole
lone = record {
  id = "lone";
  name = "lone";
  metadata = record {
    description = "";
    owner = "";
    timeout = 0;
    singleton = true;
    retry_count = 0;
    retry_policy = (job "lone").metadata.retry_policy;
    tags = [];
  };
}

begin_execution-last_report_example :
    is_some
      (begin_execution 1 1 lone
        (cron_acts cron (scheduling "* * * * * *" lone ∷ []) (new_cron_scheduler 0 "here"))).0
    ≡ (not true || last_report {F = whole} false (scheduling "* * * * * *" lone ∷ []))
begin_execution-last_report_example =
    begin_execution-last_report cron 0 "here" (scheduling "* * * * * *" lone ∷ []) 1 1 lone
