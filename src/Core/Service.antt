-- ===== src/Core/Service.antt =====
-- core/service.go: the service's lifecycle.
-- A hook is any function that acts on a world `W` and may return an error. A method returns its
-- outcome, the service and the world. Methods are atomic here: no other goroutine runs between the
-- sections that a method locks.
pub mod Hooks
pub mod Lifecycle
pub mod Restart
use microlib.Prelude.{
  ℕ, zero, suc, ◌≡◌, Bool, true, false, not, Option, none, some, List, [], ◌∷◌, ◌++◌, String, Dict,
  length, get_elem?, if◌then◌else◌,
}
use microlib.Core.Health
use microlib.Core.Health.{
  HealthCheck, HealthChecker, HealthResult, status_beq, up, add_check, run_checks,
}

-- `context.Context`: the caller's, or a fresh one with a timeout.
pub data Context : Type 0 where
  caller : ℕ → Context
  with_timeout : ℕ → Context

pub data Signal : Type 0 where
  sigterm sigint : Signal

pub record ServiceMetadata : Type 0 where
  pub name : String
  pub version : String
  pub instance_id : String
  pub build_hash : String
  pub start_time : ℕ

-- `chan os.Signal` with room for one signal.
pub record Channel : Type 0 where
  pub buffer : Option Signal
  pub closed : Bool
  pub notified : Bool

pub data ServiceError : Type 0 where
  already_started : String → ServiceError
  dependency_failed : String → String → ServiceError
  startup_hook_failed : String → ServiceError
  shutdown_hook_failed : String → ServiceError

-- A method returns `nil`, returns an error, panics, or blocks for ever.
pub data Outcome : Type 0 where
  done : Outcome
  failed : ServiceError → Outcome
  panics : Outcome
  blocks : Outcome

abbrev pub Hook : Type 0 → Type 0
Hook W = Context → W → Option String × W

pub record Dependency : Type 0 where
  pub name : String
  pub health_check : HealthCheck Context

pub record Service (W : Type 0) : Type 0 where
  pub metadata : ServiceMetadata
  pub dependencies : List Dependency
  pub shutdown_hooks : List (Hook W)
  pub startup_hooks : List (Hook W)
  pub health_checker : HealthChecker Context
  pub channel : Channel
  pub started : Bool
  pub shutdown_timeout : ℕ
  pub ready_to_serve : Bool

-- 30 seconds, in nanoseconds.
abbrev default_shutdown_timeout : ℕ
default_shutdown_timeout = 30_000_000_000

module _ {W : Type 0} where
  unfoldable pub new_service : ServiceMetadata → ℕ → Service W
  new_service metadata now = record {
    metadata = record metadata { start_time = now };
    dependencies = [];
    shutdown_hooks = [];
    startup_hooks = [];
    health_checker = record { checks = [] };
    channel = record { buffer = none; closed = false; notified = false };
    started = false;
    shutdown_timeout = default_shutdown_timeout;
    ready_to_serve = false;
  }

  unfoldable with_shutdown_timeout : ℕ → Service W → Service W
  with_shutdown_timeout timeout s = record s { shutdown_timeout = timeout }

  unfoldable add_dependency : Dependency → Service W → Service W
  unfolding add_check
  add_dependency dep s = record s {
    dependencies = s.dependencies ++ dep ∷ [];
    health_checker = add_check s.health_checker dep.name dep.health_check;
  }

  unfoldable pub register_shutdown_hook : Hook W → Service W → Service W
  register_shutdown_hook hook s = record s { shutdown_hooks = s.shutdown_hooks ++ hook ∷ [] }

  unfoldable pub register_startup_hook : Hook W → Service W → Service W
  register_startup_hook hook s = record s { startup_hooks = s.startup_hooks ++ hook ∷ [] }

  unfoldable set_ready_to_serve : Bool → Service W → Service W
  set_ready_to_serve ready s = record s { ready_to_serve = ready }

-- The loop of `ValidateDependencies` over the results.
unfoldable pub first_failure : Dict String HealthResult → Option ServiceError
first_failure [] = none
first_failure ((name, r) ∷ rest) =
    let more = first_failure rest in
    if not (status_beq r.status up) then some (dependency_failed name r.error) else more

module _ {W : Type 0} where
  unfoldable pub validate_dependencies : Service W → (ℕ → ℕ) → Context → Option ServiceError
  unfolding first_failure run_checks
  validate_dependencies s clock ctx = first_failure (run_checks s.health_checker clock ctx)

  -- `if err := hook(ctx); err != nil { return … }`, and what follows it.
  abbrev pub after_hook : Option String × W → (W → Option String × W) → Option String × W
  after_hook (some e, w) rest = (some e, w)
  after_hook (none, w) rest = rest w

  -- Hooks run in order up to the first that fails.
  unfoldable pub run_hooks : Context → List (Hook W) → W → Option String × W
  run_hooks ctx [] w = (none, w)
  run_hooks ctx (hook ∷ hooks) w = after_hook (hook ctx w) (λ w'. run_hooks ctx hooks w')

  -- `for i := len(hooks) - 1; i >= 0; i--`, where `n` is `i + 1`.
  unfoldable pub run_hooks_down : Context → List (Hook W) → ℕ → W → Option String × W
  run_hooks_down ctx hooks zero w = (none, w)
  run_hooks_down ctx hooks (suc i) w = elim (get_elem? hooks i) [
    | none ↦ (none, w)
    | some hook ↦ after_hook (hook ctx w) (λ w'. run_hooks_down ctx hooks i w')
  ]

  -- What `Start` does once the hooks have returned.
  unfoldable pub mark_started : Service W → Option String × W → Outcome × Service W × W
  mark_started s (some e, w) = (failed (startup_hook_failed e), s, w)
  mark_started s (none, w) = (
    done,
    record s {
      started = true;
      ready_to_serve = true;
      channel = record s.channel { notified = true };
    },
    w,
  )

  unfoldable pub start : Service W → (ℕ → ℕ) → Context → W → Outcome × Service W × W
  unfolding validate_dependencies run_hooks mark_started
  start s clock ctx w =
      if s.started
      then (failed (already_started s.metadata.name), s, w)
      else elim (validate_dependencies s clock ctx) [
        | some e ↦ (failed e, s, w)
        | none ↦ mark_started s (run_hooks ctx s.startup_hooks w)
      ]

  -- `signal.Stop` and `close`: closing a closed channel panics.
  unfoldable close_channel : Service W → Outcome × Service W
  close_channel s =
      let t = record s { channel = record s.channel { notified = false; closed = true } } in
      if s.channel.closed
      then (panics, record s { channel = record s.channel { notified = false } })
      else (done, t)

  unfoldable pub finish_shutdown : Service W → Option String × W → Outcome × Service W × W
  unfolding close_channel
  finish_shutdown s (some e, w) = (failed (shutdown_hook_failed e), s, w)
  finish_shutdown s (none, w) = let (o, s') = close_channel s in (o, s', w)

  unfoldable pub shutdown : Service W → ℕ → W → Outcome × Service W × W
  unfolding run_hooks_down finish_shutdown
  shutdown s timeout w =
      let s' = record s { started = false } in
      if not s.started
      then (done, s, w)
      else finish_shutdown s'
          (run_hooks_down (with_timeout timeout) s.shutdown_hooks (length s.shutdown_hooks) w)

  -- A send on a closed channel panics, and on a full one blocks. `none` is a nil signal.
  unfoldable trigger : Option Signal → Service W → Outcome × Service W
  trigger sig s =
      let sent : Signal = elim sig [ none ↦ sigterm | some x ↦ x ] in
      if s.channel.closed then (panics, s) else elim s.channel.buffer [
        | some x ↦ (blocks, s)
        | none ↦ (done, record s { channel = record s.channel { buffer = some sent } })
      ]

  -- What `Run` does after `Start`: `between` is what other goroutines do to the service and the
  -- world until a signal is received.
  unfoldable await_and_shutdown :
      (Service W → W → Service W × W) → Outcome × Service W × W → Outcome × Service W × W
  unfolding shutdown
  await_and_shutdown between (done, s, w) =
      let (t, v) = between s w in shutdown t t.shutdown_timeout v
  await_and_shutdown between (o, s, w) = (o, s, w)

  unfoldable pub run :
      Service W → (ℕ → ℕ) → Context → (Service W → W → Service W × W) → W → Outcome × Service W × W
  unfolding start await_and_shutdown
  run s clock ctx between w = await_and_shutdown between (start s clock ctx w)

  unfoldable run_with_timeout :
      Service W
      → (ℕ → ℕ)
      → Context
      → ℕ
      → (Service W → W → Service W × W)
      → W
      → Outcome × Service W × W
  unfolding run with_shutdown_timeout
  run_with_timeout s clock ctx timeout between w =
      run (with_shutdown_timeout timeout s) clock ctx between w
