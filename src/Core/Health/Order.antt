-- ===== src/Core/Health/Order.antt =====
-- core/health.go: what the summaries say of the checks, in whatever order a map is visited.
use mathlib.Core.Logic.{∥∥₁_elim}
use mathlib.Core.List.{Perm, Permᴰ}
use microlib.Prelude.{
  ℕ, suc, ◌≡◌, refl, sym, ◌∙◌, ap₂, is_empty, subst, Bool, true, false, none, [], ◌∷◌, String, Dict,
  inl, inr, lookup, insert, delete, arith, if◌then◌else◌, ◌==◌, ◌&&◌, string_eq, HasUniqueKeys,
  delete_of_none, Bool-cases,
}
use microlib.Core.Health.{
  up, down, unknown, HealthCheck, HealthChecker, run_from, all_up, any_down, summary_of, is_healthy,
  health_summary, all_pass, passes, add_check, remove_check,
}

swap_tests : (a b c : Bool) → (b && (a && c)) ≡ (a && (b && c))
swap_tests a b c = ground arith

module _ {Ctx : Type 0} where
  all_up-run_from :
      (clock : ℕ → ℕ) (n : ℕ) (ctx : Ctx) (m : Dict String (HealthCheck Ctx))
      → all_up (run_from clock n ctx m) ≡ all_pass ctx m
  unfolding all_up run_from all_pass
  all_up-run_from clock n ctx [] = refl
  all_up-run_from clock n ctx ((name, check) ∷ m) =
      ground (arith, all_up-run_from clock (suc n) ctx m)

  any_down-run_from :
      (clock : ℕ → ℕ) (n : ℕ) (ctx : Ctx) (m : Dict String (HealthCheck Ctx))
      → any_down (run_from clock n ctx m) ≡ (if all_pass ctx m then false else true)
  unfolding any_down run_from all_pass
  any_down-run_from clock n ctx [] = refl
  any_down-run_from clock n ctx ((name, check) ∷ m) =
      ground (arith, any_down-run_from clock (suc n) ctx m)

  all_pass-Permᴰ :
      (ctx : Ctx) {m m' : Dict String (HealthCheck Ctx)}
      → Permᴰ m m'
      → all_pass ctx m ≡ all_pass ctx m'
  unfolding all_pass
  all_pass-Permᴰ ctx Permᴰ.nil = refl
  all_pass-Permᴰ ctx (Permᴰ.cons {b = b} e p) =
      ap₂ (λ (c : String × HealthCheck Ctx) rest. passes (c.1 ctx) && rest) e (all_pass-Permᴰ ctx p)
  all_pass-Permᴰ ctx (Permᴰ.swap {a' = a'} {b' = b'} {l = l} e f) =
      rw (e, f) (swap_tests (passes (a'.1 ctx)) (passes (b'.1 ctx)) (all_pass ctx l))
  all_pass-Permᴰ ctx (Permᴰ.trans p q) = all_pass-Permᴰ ctx p ∙ all_pass-Permᴰ ctx q

  absent :
      (j name : String) (m : Dict String (HealthCheck Ctx))
      → lookup j m ≡ none
      → (j == name) ≡ true
      → lookup name m ≡ none
  absent j name m h same = subst (λ k. lookup k m ≡ none) ((string_eq.equal_iff j name).0 same) h

  all_pass-delete :
      (ctx : Ctx) (name : String) (check : HealthCheck Ctx) (m : Dict String (HealthCheck Ctx))
      → HasUniqueKeys m
      → all_pass ctx (insert name check m) ≡ (passes (check ctx) && all_pass ctx (delete name m))
  unfolding all_pass insert delete
  all_pass-delete ctx name check [] h = ground arith
  all_pass-delete ctx name check ((j, c) ∷ m) h = elim (Bool-cases (j == name)) [
    | inl same ↦ rw same (rw (delete_of_none name m (absent j name m h.0 same)) (ground arith))
    | inr other ↦ rw other (ground (arith, all_pass-delete ctx name check m h.1))
  ]

  -- `IsHealthy` is true exactly when every registered check passes at the given context.
  is_healthy-eq :
      (h : HealthChecker Ctx) (clock : ℕ → ℕ) (ctx : Ctx)
      → is_healthy h clock ctx ≡ all_pass ctx h.checks
  unfolding is_healthy
  is_healthy-eq h clock ctx = all_up-run_from clock 0 ctx h.checks

  -- Registering a check under a name, new or taken, replaces what stood there: the checker is
  -- healthy exactly when the new check passes and the checker without that name is healthy.
  pub is_healthy-add_check :
      (h : HealthChecker Ctx) (name : String) (check : HealthCheck Ctx) (clock clock' : ℕ → ℕ)
      (ctx : Ctx)
      → HasUniqueKeys h.checks
      → is_healthy (add_check h name check) clock ctx
        ≡ (passes (check ctx) && is_healthy (remove_check h name) clock' ctx)
  unfolding add_check remove_check
  is_healthy-add_check h name check clock clock' ctx u =
      rw
        (
          is_healthy-eq (add_check h name check) clock ctx,
          is_healthy-eq (remove_check h name) clock' ctx,
        )
        (all_pass-delete ctx name check h.checks u)

  status_of_run :
      (clock : ℕ → ℕ) (ctx : Ctx) (now : ℕ) (m : Dict String (HealthCheck Ctx))
      → (summary_of (run_from clock 0 ctx m) now).status
        ≡ (if is_empty m then unknown else if all_pass ctx m then up else down)
  unfolding summary_of run_from
  status_of_run clock ctx now [] = refl
  status_of_run clock ctx now ((name, check) ∷ m) =
      ground (arith, any_down-run_from clock 0 ctx ((name, check) ∷ m))

  is_empty-Permᴰ : {m m' : Dict String (HealthCheck Ctx)} → Permᴰ m m' → is_empty m ≡ is_empty m'
  is_empty-Permᴰ Permᴰ.nil = refl
  is_empty-Permᴰ (Permᴰ.cons e p) = refl
  is_empty-Permᴰ (Permᴰ.swap e f) = refl
  is_empty-Permᴰ (Permᴰ.trans p q) = is_empty-Permᴰ p ∙ is_empty-Permᴰ q

  -- The status of `HealthSummary` is UNKNOWN with no checks, and otherwise UP exactly when
  -- `IsHealthy` holds and DOWN when it does not, whatever the clock reads.
  pub health_summary_status :
      (h : HealthChecker Ctx) (clock clock' : ℕ → ℕ) (ctx : Ctx) (now : ℕ)
      → (health_summary h clock ctx now).status
        ≡ (if is_empty h.checks then unknown else if is_healthy h clock' ctx then up else down)
  unfolding health_summary
  health_summary_status h clock clock' ctx now =
      rw (is_healthy-eq h clock' ctx) (status_of_run clock ctx now h.checks)

  -- `IsHealthy` and the status of `HealthSummary` do not depend on the order in which the map of
  -- checks is visited.
  pub health_of_any_order :
      (h h' : HealthChecker Ctx) (clock : ℕ → ℕ) (ctx : Ctx) (now : ℕ)
      → Perm h.checks h'.checks
      → (is_healthy h clock ctx ≡ is_healthy h' clock ctx)
        × ((health_summary h clock ctx now).status ≡ (health_summary h' clock ctx now).status)
  health_of_any_order h h' clock ctx now p = ∥∥₁_elim p (hlevel) λ d.
      let same =
        is_healthy-eq h clock ctx ∙ all_pass-Permᴰ ctx d ∙ sym (is_healthy-eq h' clock ctx) in
      (
        same,
        rw
            (
              health_summary_status h clock clock ctx now,
              health_summary_status h' clock clock ctx now,
            )
            (rw (is_empty-Permᴰ d, same)),
      )
