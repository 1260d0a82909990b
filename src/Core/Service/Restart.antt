-- ===== src/Core/Service/Restart.antt =====
-- core/service.go: a service that is shut down, and started again.
use microlib.Prelude.{ℕ, ◌≡◌, ap, true, false, Option, none, String, arith, length}
use microlib.Core.Service.{
  Service, Context, with_timeout, done, panics, run_hooks_down, start, shutdown, finish_shutdown,
}

module _ {W : Type 0} where
  finish_shutdown_started :
      (s : Service W) (r : Option String × W) → (finish_shutdown s r).1.started ≡ s.started
  unfolding finish_shutdown
  finish_shutdown_started s r = ground arith

  shutdown_stops : (s : Service W) (timeout : ℕ) (w : W) → (shutdown s timeout w).1.started ≡ false
  unfolding shutdown
  shutdown_stops s timeout w = ground arith

  shutdown_of_stopped :
      (s : Service W) (timeout : ℕ) (w : W)
      → s.started ≡ false
      → shutdown s timeout w ≡ (done, s, w)
  unfolding shutdown
  shutdown_of_stopped s timeout w h = ground arith

  -- After one `Shutdown`, also one that stopped at a failing hook, another does nothing and returns
  -- nil: the hooks that the first did not reach are not run by it.
  pub shutdown_once :
      (s : Service W) (timeout later : ℕ) (w w' : W)
      → let t = (shutdown s timeout w).1 in shutdown t later w' ≡ (done, t, w')
  shutdown_once s timeout later w w' =
      shutdown_of_stopped (shutdown s timeout w).1 later w' (shutdown_stops s timeout w)

  -- `Shutdown` leaves the readiness flag as it was, so a ready service stays ready.
  pub shutdown_keeps_ready :
      (s : Service W) (timeout : ℕ) (w : W)
      → (shutdown s timeout w).1.ready_to_serve ≡ s.ready_to_serve
  unfolding shutdown
  shutdown_keeps_ready s timeout w = ground arith

  -- A started service whose hooks succeed is closed by `Shutdown`; starting it again does not
  -- open the channel.
  shutdown_closes :
      (s : Service W) (timeout : ℕ) (w : W)
      → s.started ≡ true
      → (shutdown s timeout w).0 ≡ done
      → (shutdown s timeout w).1.channel.closed ≡ true
  unfolding shutdown
  shutdown_closes s timeout w h d = ground arith

  start_keeps_closed :
      (s : Service W) (clock : ℕ → ℕ) (ctx : Context) (w : W)
      → (start s clock ctx w).1.channel.closed ≡ s.channel.closed
  unfolding start
  start_keeps_closed s clock ctx w = ground arith

  shutdown_panics :
      (s : Service W) (timeout : ℕ) (w : W)
      → s.started ≡ true
      → s.channel.closed ≡ true
      → (run_hooks_down (with_timeout timeout) s.shutdown_hooks (length s.shutdown_hooks) w).0
        ≡ none
      → (shutdown s timeout w).0 ≡ panics
  unfolding shutdown
  shutdown_panics s timeout w h c ok = ground arith

  start_starts :
      (s : Service W) (clock : ℕ → ℕ) (ctx : Context) (w : W)
      → (start s clock ctx w).0 ≡ done
      → (start s clock ctx w).1.started ≡ true
  unfolding start
  start_starts s clock ctx w h = ground arith

  -- A started service that is shut down with success and then started again with success cannot
  -- be shut down: if the shutdown hooks all return nil, the second `Shutdown` panics.
  pub second_cycle_panics :
      (s t u : Service W) (clock : ℕ → ℕ) (ctx : Context) (timeout later : ℕ) (w v x y z : W)
      → s.started ≡ true
      → shutdown s timeout w ≡ (done, t, v)
      → start t clock ctx x ≡ (done, u, y)
      → (run_hooks_down (with_timeout later) u.shutdown_hooks (length u.shutdown_hooks) z).0 ≡ none
      → (shutdown u later z).0 ≡ panics
  second_cycle_panics s t u clock ctx timeout later w v x y z h d e ok =
      shutdown_panics u later z
        (cc (start_starts t clock ctx x (ap (λ r. r.0) e), ap (λ r. r.1.started) e))
        (cc (
          shutdown_closes s timeout w h (ap (λ r. r.0) d),
          ap (λ r. r.1.channel.closed) d,
          start_keeps_closed t clock ctx x,
          ap (λ r. r.1.channel.closed) e,
        ))
        ok
