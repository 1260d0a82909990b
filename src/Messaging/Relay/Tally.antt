-- ===== src/Messaging/Relay/Tally.antt =====
-- messaging/relay.go: what the metrics of the relay count.
use microlib.Prelude.{
  ℕ, ◌+◌, ◌≡◌, Option, none, some, List, [], ◌∷◌, ◌++◌, String, ltb, inl, inr, Bool-cases,
  Option-cases, arith, total, total-append,
}
use microlib.Messaging.Message.{OutboxMessage, to_message}
use microlib.Messaging.Relay.{
  Floats, Environment, RelayConfig, Metrics, Progress, after, calculate_backoff,
  exceeded_retry_limit, drop_message, finish, mark, deliver, retry, relay_message, relay_messages,
  start_progress, record_metrics, process_messages, process_batch,
}
use microlib.Messaging.Relay.Trace.{
  Call, marked_processed, marked_failed, published, read_clock, traced,
}

-- A delivery that the broker took, one that it refused, and a call of `MarkProcessed` weigh 1.
abbrev pub delivery : Call → ℕ
delivery (published topic m none) = 1
delivery _ = 0

abbrev pub refusal : Call → ℕ
refusal (published topic m (some err)) = 1
refusal _ = 0

abbrev pub marking : Call → ℕ
marking (marked_processed id r) = 1
marking _ = 0

-- The metrics in the loop, from `base` before it, are those of the calls so far.
IsTallied : {W : Type 0} → Metrics → Progress (W × List Call) → Type 0
IsTallied base s =
    (s.failed_count ≡ total refusal s.world.1)
    × (s.metrics.publish_failures ≡ base.publish_failures + total refusal s.world.1)
    × (s.processed_count + s.metrics.errors_total ≡ base.errors_total + total delivery s.world.1)
    × (s.metrics.messages_dropped + total delivery s.world.1
        ≡ base.messages_dropped + total marking s.world.1)
    × (s.metrics.messages_processed ≡ base.messages_processed)
    × (s.metrics.messages_failed ≡ base.messages_failed)

total_one : (w : Call → ℕ) (l : List Call) (p : Call) → total w (l ++ p ∷ []) ≡ total w l + w p
total_one w l p = omega (arith, total-append w l (p ∷ []))

total_two :
    (w : Call → ℕ) (l : List Call) (p q : Call)
    → total w ((l ++ p ∷ []) ++ q ∷ []) ≡ total w l + w p + w q
total_two w l p q = omega (arith, total_one w l p, total_one w (l ++ p ∷ []) q)

module _ {W : Type 0} (env : Environment W) (base : Metrics) where
  finish-IsTallied :
      (m : OutboxMessage) (r : Option String × W) (s : Progress (W × List Call))
      → IsTallied base s
      → let p = published m.topic (to_message m) none in
        let q = marked_processed m.id r.0 in
        IsTallied base (finish (r.0, (r.1, (s.world.1 ++ p ∷ []) ++ q ∷ [])) s)
  unfolding finish IsTallied
  finish-IsTallied m (o, v) s t =
      let p = published m.topic (to_message m) none in
      let q = marked_processed m.id o in
      let two = λ (w : Call → ℕ). total_two w s.world.1 p q in
      elim o [
        | none ↦ ground (arith, two delivery, two refusal, two marking)
        | some err ↦ ground (arith, two delivery, two refusal, two marking)
      ]

  deliver-IsTallied :
      (m : OutboxMessage) (s : Progress (W × List Call))
      → IsTallied base s
      → IsTallied base (deliver (traced env) m s)
  unfolding deliver mark traced IsTallied
  deliver-IsTallied m s t =
      let r = env.publish m.topic (to_message m) s.world.0 in
      elim (Option-cases r.0) [
        | inl ok ↦ rw ok (finish-IsTallied m (env.mark_processed m.id r.1) s t)
        | inr (err, bad) ↦
            let p = published m.topic (to_message m) (some err) in
            let q = marked_failed m.id err (env.mark_failed m.id err r.1).0 in
            let two = λ (w : Call → ℕ). total_two w s.world.1 p q in
            rw bad (ground (arith, two delivery, two refusal, two marking))
      ]

module _ {F : Floats} {W : Type 0} (env : Environment W) (config : RelayConfig F)
    (base : Metrics) where
  retry-IsTallied :
      (m : OutboxMessage) (s : Progress (W × List Call))
      → IsTallied base s
      → IsTallied base (retry (traced env) config m ((traced env).now s.world) s)
  unfolding retry traced IsTallied
  retry-IsTallied m s t =
      let r = env.now s.world.0 in
      let look = λ (w : Call → ℕ). total_one w s.world.1 (read_clock r.0) in
      let s' = record s { world = ((traced env).now s.world).1 } in
      let t' : IsTallied base s' = ground (arith, look delivery, look refusal, look marking) in
      elim (Bool-cases (after m.created_at r.0 (calculate_backoff config m.retry_count))) [
        | inl early ↦ rw early t'
        | inr due ↦ rw due (deliver-IsTallied env base m s' t')
      ]

  relay_message-IsTallied :
      (m : OutboxMessage) (s : Progress (W × List Call))
      → IsTallied base s
      → IsTallied base (relay_message (traced env) config m s)
  unfolding relay_message drop_message traced IsTallied
  relay_message-IsTallied m s t =
      let r = env.mark_processed m.id s.world.0 in
      let drop = λ (w : Call → ℕ). total_one w s.world.1 (marked_processed m.id r.0) in
      elim (Bool-cases (exceeded_retry_limit config m)) [
        | inl above ↦ rw above (ground (arith, drop delivery, drop refusal, drop marking))
        | inr below ↦ rw below (elim (Bool-cases (ltb 0 m.retry_count)) [
          | inl failed ↦ rw failed (retry-IsTallied m s t)
          | inr new ↦ rw new (deliver-IsTallied env base m s t)
        ])
      ]

  relay_messages-IsTallied :
      (ms : List OutboxMessage) (s : Progress (W × List Call))
      → IsTallied base s
      → IsTallied base (relay_messages (traced env) config ms s)
  unfolding relay_messages
  relay_messages-IsTallied [] s t = t
  relay_messages-IsTallied (m ∷ ms) s t =
      relay_messages-IsTallied ms (relay_message (traced env) config m s)
        (relay_message-IsTallied m s t)

-- After a batch whose pending messages could be read, the counters have grown by what the calls of
-- the batch say: the failed messages and the publish failures by the deliveries that the broker
-- refused, the processed messages and the errors together by those that it took, and the dropped
-- messages by the calls of `MarkProcessed` that followed no delivery.
pub process_batch-counts :
    {F : Floats} {W : Type 0} (env : Environment W) (config : RelayConfig F) (metrics : Metrics)
    (w w' : W) (ms : List OutboxMessage)
    → env.get_pending_messages config.batch_size w ≡ (inr ms, w')
    → let r = process_batch (traced env) config metrics (w, []) in
      let calls = r.1.1 in
      (r.0.messages_failed ≡ metrics.messages_failed + total refusal calls)
      × (r.0.publish_failures ≡ metrics.publish_failures + total refusal calls)
      × (r.0.messages_processed + r.0.errors_total
          ≡ metrics.messages_processed + metrics.errors_total + total delivery calls)
      × (r.0.messages_dropped + total delivery calls
          ≡ metrics.messages_dropped + total marking calls)
unfolding process_batch process_messages start_progress record_metrics traced IsTallied
process_batch-counts env config metrics w w' [] h = rw h (ground arith)
process_batch-counts env config metrics w w' (m ∷ ms) h =
    let new : IsTallied metrics (start_progress metrics (w', [])) = ground arith in
    let t =
      relay_messages-IsTallied env config metrics (m ∷ ms) (start_progress metrics (w', [])) new in
    rw h (ground arith)
