-- ===== src/Tests/CoreTests.antt =====
-- core/: a service with two hooks, and a few health checks.
use microlib.Prelude.{
  ℕ, ◌≡◌, refl, true, false, none, some, List, [], ◌∷◌, ◌++◌, String, reverse, ◌↔◌, string_eq,
  HasUniqueKeys, lookup, if◌then◌else◌,
}
use microlib.Core.Health.{HealthCheck, HealthChecker, is_healthy, add_check}
use microlib.Core.Service.{
  Service, Hook, Context, caller, with_timeout, done, panics, ServiceMetadata, new_service, start,
  shutdown, run_hooks, register_startup_hook, register_shutdown_hook,
}
use microlib.Core.Service.Lifecycle.{start-done, shutdown_runs_reverse}

abbrev passing : HealthCheck Context
passing ctx = none

abbrev failing : HealthCheck Context
failing ctx = some "connection refused"

abbrev two_checks : HealthChecker Context
two_checks = record { checks = ("db", passing) ∷ ("cache", failing) ∷ [] }

abbrev swapped : HealthChecker Context
swapped = record { checks = ("cache", failing) ∷ ("db", passing) ∷ [] }

abbrev ticking : ℕ → ℕ
ticking n = n

two_checks-HasUniqueKeys : HasUniqueKeys two_checks.checks
unfolding lookup
two_checks-HasUniqueKeys = (refl, (refl, tt))

repaired : is_healthy (add_check two_checks "cache" passing) ticking (caller 0) ≡ true
unfolding is_healthy add_check
repaired = refl

-- A hook that writes its name into the world.
abbrev says : String → Hook (List String)
says name ctx w = (none, w ++ name ∷ [])

abbrev metadata : ServiceMetadata
metadata = record {
  name = "orders";
  version = "1.0.0";
  instance_id = "a";
  build_hash = "f00";
  start_time = 0;
}

abbrev fresh : Service (List String)
unfolding new_service register_startup_hook register_shutdown_hook
fresh = register_shutdown_hook (says "db") (
    register_shutdown_hook (says "http")
      (register_startup_hook (says "migrate") (new_service metadata 5)))

abbrev started : Service (List String)
unfolding start new_service register_startup_hook register_shutdown_hook
started = (start fresh ticking (caller 0) []).1

abbrev stopped : Service (List String)
unfolding start shutdown new_service register_startup_hook register_shutdown_hook
stopped = (shutdown started 30 []).1

abbrev again : Service (List String)
unfolding start shutdown new_service register_startup_hook register_shutdown_hook
again = (start stopped ticking (caller 0) []).1

start-done_example : ((start fresh ticking (caller 0) []).0 ≡ done) ↔ (
    (fresh.started ≡ false)
    × (is_healthy fresh.health_checker ticking (caller 0) ≡ true)
    × ((run_hooks (caller 0) fresh.startup_hooks []).0 ≡ none))
start-done_example = start-done fresh ticking (caller 0) []

-- The hooks run in the order db, http: the reverse of their registration.
shutdown_order : (shutdown started 30 []).2 ≡ "db" ∷ "http" ∷ []
unfolding start shutdown new_service register_startup_hook register_shutdown_hook
shutdown_order = refl

shutdown_runs_reverse_example : (shutdown started 30 []).2 ≡ (
    if started.started
    then (run_hooks (with_timeout 30) (reverse started.shutdown_hooks) []).1
    else [])
shutdown_runs_reverse_example = shutdown_runs_reverse started 30 []

second_shutdown_panics : (shutdown again 30 []).0 ≡ panics
unfolding start shutdown new_service register_startup_hook register_shutdown_hook
second_shutdown_panics = refl
