-- ===== src/Observability/Probes/Startup.antt =====
-- observability/health.go: when the startup probes make a service ready.
use microlib.Prelude.{
  ℕ, zero, suc, ◌+◌, ◌-◌, ◌≤◌, Bool, true, false, List, [], ◌∷◌, map, leb, ◌&&◌, ◌||◌,
  if◌then◌else◌, ◌≡◌, refl, sym, ap, ap₂, ◌∙◌, arith,
}
use microlib.Core.Health.{all_up, run_checks}
use microlib.Observability.Probes.{Answer, Prober, request_context, startup}

-- The first `n` are true.
abbrev pub leads : ℕ → List Bool → Bool
leads zero bs = true
leads (suc n) [] = false
leads (suc n) (b ∷ bs) = b && leads n bs

-- Somewhere `n` in a row are true.
abbrev pub has_run : ℕ → List Bool → Bool
has_run n [] = leads n []
has_run n (b ∷ bs) = leads n (b ∷ bs) || has_run n bs

leads_fewer : (i j : ℕ) (bs : List Bool) → i ≤ j → leads j bs ≡ true → leads i bs ≡ true
leads_fewer zero j bs h l = refl
leads_fewer (suc i) zero bs h l = absurd (omega (arith, h))
leads_fewer (suc i) (suc j) [] h l = cc
leads_fewer (suc i) (suc j) (false ∷ bs) h l = cc
leads_fewer (suc i) (suc j) (true ∷ bs) h l = leads_fewer i j bs (omega (arith, h)) l

-- Whether the count of passes, which is `c` before, gets to `n`.
abbrev reaches : ℕ → ℕ → List Bool → Bool
reaches n c [] = false
reaches n c (true ∷ bs) = leb n (suc c) || reaches n (suc c) bs
reaches n c (false ∷ bs) = reaches n 0 bs

reaches_step :
    (n c : ℕ) (r p : Bool) (bs : List Bool)
    → ((r || (p && leb n (suc c))) || reaches n (if p then suc c else 0) bs)
      ≡ (r || reaches n c (p ∷ bs))
reaches_step n c true p bs = refl
reaches_step n c false true bs = refl
reaches_step n c false false bs = refl

or_true : (a : Bool) → (a || true) ≡ true
or_true true = refl
or_true false = refl

or_false : (a : Bool) → (a || false) ≡ a
or_false true = refl
or_false false = refl

absorb : (a b : Bool) → (a ≡ true → b ≡ true) → (a || b) ≡ b
absorb true b h = sym (h refl)
absorb false b h = refl

has_run_now : (n : ℕ) (bs : List Bool) → leads n bs ≡ true → has_run n bs ≡ true
has_run_now n [] h = h
has_run_now n (b ∷ bs) h = rw h refl

leads_now : (n : ℕ) (bs : List Bool) → (leads n bs || has_run n bs) ≡ has_run n bs
leads_now n bs = absorb (leads n bs) (has_run n bs) (has_run_now n bs)

reaches_next :
    (n c k : ℕ) (bs : List Bool)
    → n ≡ suc (c + k)
    → reaches n c bs ≡ (leads (suc k) bs || has_run n bs)
reaches_next n c k [] e = rw e refl
reaches_next n c k (false ∷ bs) e =
    let now = leads_now n bs in
    let rest = reaches_next n 0 (c + k) bs (omega (arith, e)) in ground (arith, e, now, rest)
reaches_next n c zero (true ∷ bs) e = ground (arith, e)
reaches_next n c (suc k) (true ∷ bs) e =
    let rest = reaches_next n (suc c) k bs (omega (arith, e)) in
    let fewer = leads_fewer (suc k) (c + suc k) bs (omega arith) in ground (arith, e, rest, fewer)

module _ {Ctx : Type 0} (with_timeout : ℕ → Ctx → Ctx) where
  -- Startup probes one after the other.
  unfoldable pub startups : List ((ℕ → ℕ) × Ctx) → Prober Ctx → Prober Ctx
  unfolding startup
  startups [] h = h
  startups ((clock, ctx) ∷ requests) h = startups requests (startup with_timeout h clock ctx).1

  -- Whether all checks pass in a request.
  abbrev pub passed : Prober Ctx → (ℕ → ℕ) × Ctx → Bool
  passed h (clock, ctx) =
      all_up (run_checks h.core_health_checker clock (request_context with_timeout h ctx))

  next_of :
      (h : Prober Ctx) (p l : Bool) (a b d : Answer)
      → let r : Answer × Prober Ctx =
          if p
          then (if l
              then (a, record h { startup_checks = suc h.startup_checks; ready_to_serve = true })
              else (b, record h { startup_checks = suc h.startup_checks }))
          else (d, record h { startup_checks = 0 }) in
        r.1 ≡ record h {
          startup_checks = if p then suc h.startup_checks else 0;
          ready_to_serve = h.ready_to_serve || (p && l);
        }
  next_of h true true a b d =
      ap (λ x. record h { startup_checks = suc h.startup_checks; ready_to_serve = x })
        (sym (or_true h.ready_to_serve))
  next_of h true false a b d =
      ap (λ x. record h { startup_checks = suc h.startup_checks; ready_to_serve = x })
        (sym (or_false h.ready_to_serve))
  next_of h false l a b d =
      ap (λ x. record h { startup_checks = 0; ready_to_serve = x })
        (sym (or_false h.ready_to_serve))

  startup_next :
      (h : Prober Ctx) (clock : ℕ → ℕ) (ctx : Ctx)
      → (startup with_timeout h clock ctx).1 ≡ record h {
        startup_checks = if passed h (clock, ctx) then suc h.startup_checks else 0;
        ready_to_serve =
            h.ready_to_serve
            || (passed h (clock, ctx) && leb h.config.startup_threshold (suc h.startup_checks));
      }
  unfolding startup
  startup_next h clock ctx =
      next_of h (passed h (clock, ctx)) (leb h.config.startup_threshold (suc h.startup_checks)) _ _
        _

  ready-startups :
      (requests : List ((ℕ → ℕ) × Ctx)) (h : Prober Ctx)
      → (startups requests h).ready_to_serve ≡ (
          h.ready_to_serve
          || reaches h.config.startup_threshold h.startup_checks (map (passed h) requests))
  unfolding startups
  ready-startups [] h = ground arith
  ready-startups ((clock, ctx) ∷ requests) h =
      ap (λ k. (startups requests k).ready_to_serve) (startup_next h clock ctx)
      ∙ ready-startups requests _
      ∙ reaches_step h.config.startup_threshold h.startup_checks h.ready_to_serve
          (passed h (clock, ctx)) (map (passed h) requests)

  -- From a prober that has seen no probe on, the service is ready exactly if somewhere among the startup
  -- probes as many as the threshold, in a row, found all checks passing. Later failures do not take the
  -- readiness back.
  pub ready_to_serve-startups :
      (requests : List ((ℕ → ℕ) × Ctx)) (h : Prober Ctx)
      → h.startup_checks ≡ 0
      → h.ready_to_serve ≡ false
      → 1 ≤ h.config.startup_threshold
      → (startups requests h).ready_to_serve
        ≡ has_run h.config.startup_threshold (map (passed h) requests)
  ready_to_serve-startups requests h none_yet not_yet positive =
      let bs = map (passed h) requests in
      let n = h.config.startup_threshold in
      ready-startups requests h
      ∙ ap₂ (λ r c. r || reaches n c bs) not_yet none_yet
      ∙ reaches_next n 0 (n - 1) bs (omega (arith, positive))
      ∙ ap (λ k. leads k bs || has_run n bs) {x = suc (n - 1)} (omega (arith, positive))
      ∙ leads_now n bs
