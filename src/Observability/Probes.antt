-- ===== src/Observability/Probes.antt =====
-- observability/health.go: healthChecker and HealthManager. A handler's answer is a value; what is
-- written of it as JSON is left out.
pub mod Startup
pub mod Agreement
use microlib.Prelude.{
  ℕ, suc, ◌+◌, ◌*◌, Bool, true, false, not, Option, none, some, List, [], ◌∷◌, String, Dict, insert,
  string_eq, leb, ◌&&◌, if◌then◌else◌,
}
use microlib.Core.Health.{
  HealthStatus, up, down, starting, status_beq, HealthCheck, HealthResult, HealthChecker, add_check,
  remove_check, run_checks, all_up, is_healthy, health_summary,
}

-- Times are in milliseconds.
pub record HealthConfig : Type 0 where
  pub enabled : Bool
  pub path : String
  pub liveness_path : String
  pub readiness_path : String
  pub startup_path : String
  pub startup_threshold : ℕ
  pub startup_interval : ℕ
  pub readiness_timeout : ℕ
  pub liveness_timeout : ℕ

abbrev pub default_health_config : HealthConfig
default_health_config = record {
  enabled = true;
  path = "/health";
  liveness_path = "/health/live";
  readiness_path = "/health/ready";
  startup_path = "/health/startup";
  startup_threshold = 3;
  startup_interval = 1000;
  readiness_timeout = 5000;
  liveness_timeout = 2000;
}

-- `healthChecker`, on top of the checker of core/.
pub record Prober (Ctx : Type 0) : Type 0 where
  pub core_health_checker : HealthChecker Ctx
  pub config : HealthConfig
  pub startup_checks : ℕ
  pub ready_to_serve : Bool

pub data ProbeMessage : Type 0 where
  alive ready not_ready unhealthy startup_complete startup_in_progress : ProbeMessage

-- The answer of a probe: its status and message, the code of HTTP, and the results of the checks.
pub record Answer : Type 0 where
  pub status : HealthStatus
  pub message : ProbeMessage
  pub code : ℕ
  pub checks : Dict String HealthResult

abbrev code_of : HealthStatus → ℕ
code_of status = if not (status_beq status up) then 503 else 200

-- An answer with its code.
abbrev answered : HealthStatus → ProbeMessage → Dict String HealthResult → Answer
answered status message results = record {
  status = status;
  message = message;
  code = code_of status;
  checks = results;
}

pub data Endpoint : Type 0 where
  health_endpoint liveness_endpoint readiness_endpoint startup_endpoint : Endpoint

module _ {Ctx : Type 0} where
  unfoldable pub new_prober : HealthConfig → Prober Ctx
  new_prober config = record {
    core_health_checker = record { checks = [] };
    config = config;
    startup_checks = 0;
    ready_to_serve = false;
  }

  unfoldable pub add_probe_check : Prober Ctx → String → HealthCheck Ctx → Prober Ctx
  unfolding add_check
  add_probe_check h name check = record h {
    core_health_checker = add_check h.core_health_checker name check;
  }

  unfoldable remove_probe_check : Prober Ctx → String → Prober Ctx
  unfolding remove_check
  remove_probe_check h name = record h {
    core_health_checker = remove_check h.core_health_checker name;
  }

  unfoldable liveness : Prober Ctx → Answer
  liveness h = answered up alive []

  unfoldable register_handlers : Prober Ctx → List (String × Endpoint)
  register_handlers h =
      if not h.config.enabled
      then []
      else (h.config.path, health_endpoint)
        ∷ (h.config.liveness_path, liveness_endpoint)
        ∷ (h.config.readiness_path, readiness_endpoint)
        ∷ (h.config.startup_path, startup_endpoint)
        ∷ []

  unfoldable pub set_probe_ready : Bool → Prober Ctx → Prober Ctx
  set_probe_ready serves h = record h { ready_to_serve = serves }

  unfoldable reset_startup_checks : Prober Ctx → Prober Ctx
  reset_startup_checks h = record h { startup_checks = 0 }

  unfoldable set_startup_threshold : ℕ → Prober Ctx → Prober Ctx
  set_startup_threshold threshold h =
      let config : HealthConfig = record h.config { startup_threshold = threshold } in
      record h { config = config }

-- The context of a request with a timeout in nanoseconds is a parameter, and `clock` is as in
-- Core/Health.antt.
module _ {Ctx : Type 0} (with_timeout : ℕ → Ctx → Ctx) where
  abbrev pub request_context : Prober Ctx → Ctx → Ctx
  request_context h ctx = with_timeout (h.config.readiness_timeout * 1_000_000) ctx

  unfoldable pub readiness : Prober Ctx → (ℕ → ℕ) → Ctx → Answer
  unfolding run_checks all_up
  readiness h clock ctx =
      let results = run_checks h.core_health_checker clock (request_context h ctx) in
      if not h.ready_to_serve
      then answered down not_ready results
      else if not (all_up results)
      then answered down unhealthy results
      else answered up ready results

  unfoldable pub startup : Prober Ctx → (ℕ → ℕ) → Ctx → Answer × Prober Ctx
  unfolding run_checks all_up
  startup h clock ctx =
      let results = run_checks h.core_health_checker clock (request_context h ctx) in
      let count = suc h.startup_checks in
      if all_up results
      then (if leb h.config.startup_threshold count
          then (
            answered up startup_complete results,
            record h { startup_checks = count; ready_to_serve = true },
          )
          else (answered starting startup_in_progress results, record h { startup_checks = count }))
      else (answered down startup_in_progress results, record h { startup_checks = 0 })

  -- HealthHandler: the summary, the code and the results.
  unfoldable overall :
      Prober Ctx → (ℕ → ℕ) → (ℕ → ℕ) → ℕ → Ctx → HealthResult × ℕ × Dict String HealthResult
  unfolding run_checks health_summary
  overall h clock clock' now ctx =
      let results = run_checks h.core_health_checker clock (request_context h ctx) in
      let summary = health_summary h.core_health_checker clock' (request_context h ctx) now in
      (summary, code_of summary.status, results)

module _ {Ctx : Type 0} where
  unfoldable pub is_ready : Prober Ctx → (ℕ → ℕ) → Ctx → Bool
  unfolding is_healthy
  is_ready h clock ctx = h.ready_to_serve && is_healthy h.core_health_checker clock ctx

-- `is_observability` is whether the configuration given is of the type that is expected.
pub record HealthManager (Ctx : Type 0) : Type 0 where
  pub health_checker : Prober Ctx

unfoldable new_health_manager : {Ctx : Type 0} → Bool → Option (HealthManager Ctx)
unfolding new_prober
new_health_manager is_observability =
    if not is_observability
    then none
    else some (record { health_checker = new_prober default_health_config })

-- Whether there is no error.
unfoldable pub reload : {Ctx : Type 0} → Bool → HealthManager Ctx → Bool × HealthManager Ctx
unfolding new_prober
reload is_observability m =
    if not is_observability
    then (false, m)
    else (true, record { health_checker = new_prober default_health_config })
