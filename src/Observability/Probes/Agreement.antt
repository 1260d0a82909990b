-- ===== src/Observability/Probes/Agreement.antt =====
-- observability/health.go: what the probes say of one state, and what a reload makes of it.
use microlib.Prelude.{ℕ, true, false, [], ◌∷◌, if◌then◌else◌, ◌≡◌, refl, arith}
use microlib.Core.Health.{all_up, run_checks, is_healthy}
use microlib.Observability.Probes.{
  Prober, HealthManager, request_context, readiness, startup, is_ready, reload, new_prober,
}
use microlib.Observability.Probes.Startup.{startups}

module _ {Ctx : Type 0} (with_timeout : ℕ → Ctx → Ctx) where
  -- The readiness handler answers 200 exactly if IsReady is true in the context with its timeout, and
  -- 503 otherwise.
  pub readiness-is_ready :
      (h : Prober Ctx) (clock : ℕ → ℕ) (ctx : Ctx)
      → (readiness with_timeout h clock ctx).code
        ≡ (if is_ready h clock (request_context with_timeout h ctx) then 200 else 503)
  unfolding readiness is_ready is_healthy
  readiness-is_ready h clock ctx = ground arith

  -- After a reload that succeeds no check is left: the service is not ready, and three startup probes
  -- later it is, whatever checks were registered before and whatever they would find.
  pub reload_forgets :
      (m : HealthManager Ctx) (c1 c2 c3 c4 : ℕ → ℕ) (ctx : Ctx)
      → let fresh = (reload true m).1.health_checker in
        (is_ready fresh c4 ctx ≡ false)
        × (is_ready (startups with_timeout ((c1, ctx) ∷ (c2, ctx) ∷ (c3, ctx) ∷ []) fresh) c4 ctx
            ≡ true)
  unfolding reload new_prober is_ready is_healthy startups startup all_up run_checks
  reload_forgets m c1 c2 c3 c4 ctx = (refl, refl)
