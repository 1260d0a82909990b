-- ===== src/Core/Health.antt =====
-- core/health.go: the registry of health checks and its summaries.
pub mod Order
use microlib.Prelude.{
  ℕ, suc, ◌≡◌, Bool, true, false, not, Option, none, some, List, [], ◌∷◌, ◌++◌, String, Dict,
  values, insert, delete, if◌then◌else◌, string_eq, ◌&&◌,
}

pub data HealthStatus : Type 0 where
  unknown up down starting : HealthStatus

abbrev pub status_beq : HealthStatus → HealthStatus → Bool
status_beq unknown unknown = true
status_beq up up = true
status_beq down down = true
status_beq starting starting = true
status_beq _ _ = false

-- A check returns `nil`, or an error that is known by its text. What it may read is `ctx`.
abbrev pub HealthCheck : Type 0 → Type 0
HealthCheck Ctx = Ctx → Option String

pub data Message : Type 0 where
  check_failed : String → Message
  check_passed no_checks some_failed all_passed : Message

pub record HealthResult : Type 0 where
  pub status : HealthStatus
  pub message : Message
  pub timestamp : ℕ
  pub error : String

pub record HealthChecker (Ctx : Type 0) : Type 0 where
  pub checks : Dict String (HealthCheck Ctx)

module _ {Ctx : Type 0} where
  unfoldable pub add_check : HealthChecker Ctx → String → HealthCheck Ctx → HealthChecker Ctx
  unfolding insert
  add_check h name check = record h { checks = insert name check h.checks }

  unfoldable pub remove_check : HealthChecker Ctx → String → HealthChecker Ctx
  unfolding delete
  remove_check h name = record h { checks = delete name h.checks }

-- The result of one check that returned `err` at time `now`.
unfoldable result_of : ℕ → Option String → HealthResult
result_of now none = record { status = up; message = check_passed; timestamp = now; error = "" }
result_of now (some err) = record {
  status = down;
  message = check_failed err;
  timestamp = now;
  error = err;
}

module _ {Ctx : Type 0} where
  -- `clock n` is what the n-th reading of `time.Now` returns.
  unfoldable pub run_from :
      (ℕ → ℕ) → ℕ → Ctx → Dict String (HealthCheck Ctx) → Dict String HealthResult
  unfolding result_of
  run_from clock n ctx [] = []
  run_from clock n ctx ((name, check) ∷ rest) =
      (name, result_of (clock n) (check ctx)) ∷ run_from clock (suc n) ctx rest

  unfoldable pub run_checks : HealthChecker Ctx → (ℕ → ℕ) → Ctx → Dict String HealthResult
  unfolding run_from
  run_checks h clock ctx = run_from clock 0 ctx h.checks

-- The loop of `IsHealthy` over the results.
unfoldable pub all_up : Dict String HealthResult → Bool
all_up [] = true
all_up ((name, r) ∷ rest) =
    let more = all_up rest in if not (status_beq r.status up) then false else more

unfoldable pub any_down : Dict String HealthResult → Bool
any_down [] = false
any_down ((name, r) ∷ rest) =
    let more = any_down rest in if status_beq r.status down then true else more

unfoldable pub summary_of : Dict String HealthResult → ℕ → HealthResult
unfolding any_down
summary_of [] now = record { status = unknown; message = no_checks; timestamp = now; error = "" }
summary_of (r ∷ rs) now =
    if any_down (r ∷ rs)
    then record { status = down; message = some_failed; timestamp = now; error = "" }
    else record { status = up; message = all_passed; timestamp = now; error = "" }

module _ {Ctx : Type 0} where
  unfoldable pub is_healthy : HealthChecker Ctx → (ℕ → ℕ) → Ctx → Bool
  unfolding run_checks all_up
  is_healthy h clock ctx = all_up (run_checks h clock ctx)

  -- `now` is the reading of the clock for the summary itself.
  unfoldable pub health_summary : HealthChecker Ctx → (ℕ → ℕ) → Ctx → ℕ → HealthResult
  unfolding run_checks summary_of
  health_summary h clock ctx now = summary_of (run_checks h clock ctx) now

-- The error is `nil`.
abbrev pub passes : Option String → Bool
passes none = true
passes (some e) = false

module _ {Ctx : Type 0} where
  -- Every check of the list passes.
  unfoldable pub all_pass : Ctx → Dict String (HealthCheck Ctx) → Bool
  all_pass ctx [] = true
  all_pass ctx ((name, check) ∷ rest) = passes (check ctx) && all_pass ctx rest
