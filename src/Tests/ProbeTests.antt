-- ===== src/Tests/ProbeTests.antt =====
-- observability/: a service with one check, probed.
use microlib.Prelude.{
  ℕ, ◌≡◌, refl, true, false, none, some, [], ◌∷◌, map, Bool, arith, if◌then◌else◌,
}
use microlib.Observability.Probes.{Prober, default_health_config}
use microlib.Observability.Probes.Startup.{has_run, startups, passed, ready_to_serve-startups}

-- A context is whether the database answers, and has no timeout.
abbrev no_timeout : ℕ → Bool → Bool
no_timeout n ctx = ctx

abbrev clock : ℕ → ℕ
clock n = n

abbrev probed : Prober Bool
probed = record {
  core_health_checker = record {
    checks = ("database", (λ (up : Bool). if up then none else some "no answer")) ∷ [];
  };
  config = default_health_config;
  startup_checks = 0;
  ready_to_serve = false;
}

ready_to_serve-startups_example :
    (startups no_timeout
      ((clock, true) ∷ (clock, true) ∷ (clock, false) ∷ [])
      probed).ready_to_serve
    ≡ has_run 3
        (map (passed no_timeout probed) ((clock, true) ∷ (clock, true) ∷ (clock, false) ∷ []))
ready_to_serve-startups_example =
    ready_to_serve-startups no_timeout ((clock, true) ∷ (clock, true) ∷ (clock, false) ∷ []) probed
      refl refl (omega arith)
