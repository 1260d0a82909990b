-- ===== src/Messaging/Relay/Trace.antt =====
-- messaging/relay.go: the calls that a batch makes.
use mathlib.Core.List.{append_assoc, append-nil}
use microlib.Prelude.{
  ℕ, ◌≡◌, refl, sym, ap, subst, ◌∙◌, true, false, Option, none, some, List, [], ◌∷◌, ◌++◌, String,
  ltb, inl, inr, Bool-cases, Option-cases, arith,
}
use microlib.Messaging.Message.{Message, OutboxMessage, to_message}
use microlib.Messaging.Relay.{
  Floats, Environment, RelayConfig, Metrics, Progress, after, calculate_backoff,
  exceeded_retry_limit, drop_message, finish, mark, deliver, retry, relay_message, relay_messages,
  start_progress, record_metrics, process_messages, process_batch,
}

-- A call of the store, the broker or the clock, with its result.
pub data Call : Type 0 where
  marked_processed : String → Option String → Call
  marked_failed : String → String → Option String → Call
  published : String → Message → Option String → Call
  read_clock : ℕ → Call

module _ {W : Type 0} where
  -- The environment that also keeps the calls made of it.
  unfoldable pub traced : Environment W → Environment (W × List Call)
  traced env = record {
    get_pending_messages = λ n wl. let r = env.get_pending_messages n wl.0 in (r.0, (r.1, wl.1));
    mark_processed = λ id wl.
        let r = env.mark_processed id wl.0 in (r.0, (r.1, wl.1 ++ marked_processed id r.0 ∷ []));
    mark_failed = λ id err wl.
        let r = env.mark_failed id err wl.0 in (r.0, (r.1, wl.1 ++ marked_failed id err r.0 ∷ []));
    publish = λ topic m wl.
        let r = env.publish topic m wl.0 in (r.0, (r.1, wl.1 ++ published topic m r.0 ∷ []));
    now = λ wl. let r = env.now wl.0 in (r.0, (r.1, wl.1 ++ read_clock r.0 ∷ []));
  }

module _ {F : Floats} (config : RelayConfig F) where
  -- A message is due at once when it never failed, and else when the clock says so.
  pub data IsDue (m : OutboxMessage) : List Call → Type 0 where
    is_new : m.retry_count ≡ 0 → IsDue m []
    is_ready :
        (t : ℕ)
        → after m.created_at t (calculate_backoff config m.retry_count) ≡ false
        → IsDue m (read_clock t ∷ [])

  -- The calls made for one message.
  pub data Handled (m : OutboxMessage) : List Call → Type 0 where
    dropped :
        (r : Option String)
        → exceeded_retry_limit config m ≡ true
        → Handled m (marked_processed m.id r ∷ [])
    waiting :
        (t : ℕ)
        → exceeded_retry_limit config m ≡ false
        → after m.created_at t (calculate_backoff config m.retry_count) ≡ true
        → Handled m (read_clock t ∷ [])
    delivered :
        (cs : List Call) (r : Option String)
        → exceeded_retry_limit config m ≡ false
        → IsDue m cs
        → Handled m (cs ++ published m.topic (to_message m) none ∷ marked_processed m.id r ∷ [])
    refused :
        (cs : List Call) (err : String) (r : Option String)
        → exceeded_retry_limit config m ≡ false
        → IsDue m cs
        → Handled m
            (cs ++ published m.topic (to_message m) (some err) ∷ marked_failed m.id err r ∷ [])

  -- The calls of a batch: those of its messages, in the order of the messages.
  pub data IsBatch : List OutboxMessage → List Call → Type 0 where
    done : IsBatch [] []
    next :
        (m : OutboxMessage) (ms : List OutboxMessage) (cs ds : List Call)
        → Handled m cs
        → IsBatch ms ds
        → IsBatch (m ∷ ms) (cs ++ ds)

world-finish : {W : Type 0} (r : Option String × W) (s : Progress W) → (finish r s).world ≡ r.1
unfolding finish
world-finish (none, w) s = refl
world-finish (some err, w) s = refl

append_two :
    (l log cs : List Call) (p q : Call)
    → l ≡ log ++ cs
    → (l ++ p ∷ []) ++ q ∷ [] ≡ log ++ (cs ++ p ∷ q ∷ [])
append_two l log cs p q h =
    append_assoc l (p ∷ []) (q ∷ [])
    ∙ ap (λ k. k ++ p ∷ q ∷ []) h
    ∙ append_assoc log cs (p ∷ q ∷ [])

module _ {F : Floats} {W : Type 0} (env : Environment W) (config : RelayConfig F) where
  deliver-Handled :
      (m : OutboxMessage) (cs log : List Call) (s : Progress (W × List Call))
      → exceeded_retry_limit config m ≡ false
      → IsDue config m cs
      → s.world.1 ≡ log ++ cs
      → (ds : List Call) × ((deliver (traced env) m s).world.1 ≡ log ++ ds) × Handled config m ds
  unfolding deliver mark traced
  deliver-Handled m cs log s below due h =
      let r = env.publish m.topic (to_message m) s.world.0 in
      elim (Option-cases r.0) [
        | inl ok ↦
            let q = env.mark_processed m.id r.1 in
            rw ok (
              _,
              ap (λ wl. wl.1) (world-finish _ s) ∙ append_two s.world.1 log cs _ _ h,
              delivered cs q.0 below due,
            )
        | inr (err, bad) ↦
            let q = env.mark_failed m.id err r.1 in
            rw bad (_, append_two s.world.1 log cs _ _ h, refused cs err q.0 below due)
      ]

  retry-Handled :
      (m : OutboxMessage) (s : Progress (W × List Call))
      → exceeded_retry_limit config m ≡ false
      → (cs : List Call) × ((retry (traced env) config m ((traced env).now s.world) s).world.1
          ≡ s.world.1 ++ cs)
        × Handled config m cs
  unfolding retry traced
  retry-Handled m s below =
      let r = env.now s.world.0 in
      elim (Bool-cases (after m.created_at r.0 (calculate_backoff config m.retry_count))) [
        | inl early ↦ rw early (_, refl, waiting r.0 below early)
        | inr due ↦ rw due (
            deliver-Handled m _ s.world.1 (record s { world = ((traced env).now s.world).1 }) below
              (is_ready r.0 due) refl)
      ]

  relay_message-Handled :
      (m : OutboxMessage) (s : Progress (W × List Call))
      → (cs : List Call) × ((relay_message (traced env) config m s).world.1 ≡ s.world.1 ++ cs)
        × Handled config m cs
  unfolding relay_message drop_message traced
  relay_message-Handled m s = elim (Bool-cases (exceeded_retry_limit config m)) [
    | inl above ↦ rw above (_, refl, dropped _ above)
    | inr below ↦ rw below (elim (Bool-cases (ltb 0 m.retry_count)) [
      | inl failed ↦ rw failed (retry-Handled m s below)
      | inr new ↦ rw new (
          deliver-Handled m [] s.world.1 s below (is_new (ground arith))
            (sym (append-nil s.world.1)))
    ])
  ]

  relay_messages-IsBatch :
      (ms : List OutboxMessage) (s : Progress (W × List Call))
      → (cs : List Call) × ((relay_messages (traced env) config ms s).world.1 ≡ s.world.1 ++ cs)
        × IsBatch config ms cs
  unfolding relay_messages
  relay_messages-IsBatch [] s = ([], sym (append-nil s.world.1), done)
  relay_messages-IsBatch (m ∷ ms) s =
      let (cs, h, handled) = relay_message-Handled m s in
      let (ds, k, batch) = relay_messages-IsBatch ms (relay_message (traced env) config m s) in
      (
        cs ++ ds,
        k ∙ ap (λ l. l ++ ds) h ∙ append_assoc s.world.1 cs ds,
        next m ms cs ds handled batch,
      )

  -- A batch whose pending messages could be read handles each of them once, in order. A message
  -- past the retry limit is only marked as processed; one that failed before and whose backoff
  -- from its creation has not passed costs a look at the clock; any other is published once, and
  -- then marked as processed if the broker took it and as failed, with the broker's error, if not.
  -- Whatever a store call returns, the batch goes on.
  pub process_batch-IsBatch :
      (metrics : Metrics) (w w' : W) (ms : List OutboxMessage)
      → env.get_pending_messages config.batch_size w ≡ (inr ms, w')
      → IsBatch config ms (process_batch (traced env) config metrics (w, [])).1.1
  unfolding process_batch process_messages start_progress record_metrics traced
  process_batch-IsBatch metrics w w' [] h = rw h done
  process_batch-IsBatch metrics w w' (m ∷ ms) h =
      let (cs, k, batch) = relay_messages-IsBatch (m ∷ ms) (start_progress metrics (w', [])) in
      rw h (subst (IsBatch config (m ∷ ms)) (sym k) batch)
