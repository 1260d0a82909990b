-- ===== src/Core/Service/Lifecycle.antt =====
-- core/service.go: when Start succeeds, and what Shutdown does.
use microlib.Prelude.{
  ℕ, ◌≡◌, ◌↔◌, refl, true, false, Option, none, some, [], ◌∷◌, reverse, String, Dict, arith, inl,
  inr, Option-cases, Bool-cases, if◌then◌else◌,
}
use microlib.Core.Health.{HealthResult, all_up, is_healthy, run_checks}
use microlib.Core.Service.{
  Service, Context, with_timeout, Outcome, done, failed, panics, blocks, run_hooks, first_failure,
  validate_dependencies, start, shutdown, mark_started,
}
use microlib.Core.Service.Hooks.{run_hooks_down-eq}

all_up_of_no_failure :
    (rs : Dict String HealthResult) → (first_failure rs ≡ none) ↔ (all_up rs ≡ true)
unfolding first_failure all_up
all_up_of_no_failure [] = (λ h. refl, λ h. refl)
all_up_of_no_failure ((name, r) ∷ rs) = ground (arith, all_up_of_no_failure rs)

module _ {W : Type 0} where
  validate-none :
      (s : Service W) (clock : ℕ → ℕ) (ctx : Context)
      → (validate_dependencies s clock ctx ≡ none) ↔ (is_healthy s.health_checker clock ctx ≡ true)
  unfolding validate_dependencies is_healthy
  validate-none s clock ctx = all_up_of_no_failure (run_checks s.health_checker clock ctx)

  -- `Start` returns nil exactly when the service was not started, every health check passes and
  -- every startup hook returns nil.
  pub start-done :
      (s : Service W) (clock : ℕ → ℕ) (ctx : Context) (w : W)
      → ((start s clock ctx w).0 ≡ done) ↔ (
          (s.started ≡ false)
          × (is_healthy s.health_checker clock ctx ≡ true)
          × ((run_hooks ctx s.startup_hooks w).0 ≡ none))
  unfolding start
  start-done s clock ctx w = ground (arith, validate-none s clock ctx)

  -- What an outcome of `Start` says of the service `t` that it leaves.
  abbrev pub StartEffect : Service W → Outcome → Service W → Type 0
  StartEffect s done t = (t.started ≡ true) × (t.ready_to_serve ≡ true)
  StartEffect s (failed e) t = t ≡ s
  StartEffect s panics t = ⊥
  StartEffect s blocks t = ⊥

  mark_started_effect :
      (s : Service W) (r : Option String × W)
      → StartEffect s (mark_started s r).0 (mark_started s r).1
  unfolding mark_started
  mark_started_effect s (some e, w) = refl
  mark_started_effect s (none, w) = (refl, refl)

  -- When `Start` returns nil the service is started and ready; when it returns an error the
  -- service is as it was. It never panics or blocks.
  pub start_effect :
      (s : Service W) (clock : ℕ → ℕ) (ctx : Context) (w : W)
      → StartEffect s (start s clock ctx w).0 (start s clock ctx w).1
  unfolding start
  start_effect s clock ctx w = elim (Bool-cases s.started) [
    | inl old ↦ simp (old, start) refl
    | inr new ↦ elim (Option-cases (validate_dependencies s clock ctx)) [
      | inl ok ↦ simp (new, start, ok) (mark_started_effect s (run_hooks ctx s.startup_hooks w))
      | inr (e, bad) ↦ simp (new, start, bad) refl
    ]
  ]

  -- `Shutdown` of a started service runs the shutdown hooks in the reverse of the order in which
  -- they were registered, each with the given timeout, up to the first that fails; of a service
  -- that is not started it runs none.
  pub shutdown_runs_reverse :
      (s : Service W) (timeout : ℕ) (w : W)
      → (shutdown s timeout w).2 ≡ (
          if s.started
          then (run_hooks (with_timeout timeout) (reverse s.shutdown_hooks) w).1
          else w)
  unfolding shutdown
  shutdown_runs_reverse s timeout w =
      ground (arith, run_hooks_down-eq (with_timeout timeout) s.shutdown_hooks w)
