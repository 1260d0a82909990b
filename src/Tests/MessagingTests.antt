-- ===== src/Tests/MessagingTests.antt =====
-- messaging/: a broker with three handlers, and a relay over a store of rows.
use microlib.Prelude.{
  pos, negsuc, ℕ, ◌+◌, ◌≡◌, refl, none, some, List, [], ◌∷◌, String, inr, total, string_eq,
  if◌then◌else◌, ◌==◌, zero, suc, ◌*◌, leb,
}
use microlib.Messaging.Message.{Message, OutboxMessage, new_outbox_message, to_message}
use microlib.Messaging.Broker.{MessageHandler, MemoryBroker, new_memory_broker, publish}
use microlib.Messaging.Broker.Delivery.{subscribe_all, delivered, publish-subscribe_all}
use microlib.Messaging.Relay.{Floats, Environment, RelayConfig, Metrics, process_batch}
use microlib.Messaging.Relay.Trace.{traced, IsBatch, process_batch-IsBatch}
use microlib.Messaging.Relay.Tally.{delivery, refusal, marking, process_batch-counts}

-- The world is the list of who was called, with what.
abbrev Log : Type 0
Log = List (String × String)

abbrev logs : String → MessageHandler Log
logs name m log = (none, (name, m.id) ∷ log)

abbrev fails : String → MessageHandler Log
fails name m log = (some "no", (name, m.id) ∷ log)

abbrev three : List (String × MessageHandler Log)
three = ("a", fails "first") ∷ ("b", logs "second") ∷ ("a", logs "third") ∷ []

abbrev greeting : Message
greeting = record { id = "m"; body = 1 ∷ []; headers = [] }

publish-subscribe_all_example :
    publish (subscribe_all three new_memory_broker) "a" greeting []
    ≡ (none, delivered "a" three greeting [])
publish-subscribe_all_example = publish-subscribe_all three "a" greeting []

first_and_third : delivered "a" three greeting [] ≡ ("third", "m") ∷ ("first", "m") ∷ []
unfolding delivered
first_and_third = refl

abbrev filled : MemoryBroker Log
unfolding new_memory_broker subscribe_all
filled = subscribe_all three new_memory_broker

-- Whole numbers stand for the floats. A conversion of 1000 or more overflows.
abbrev power : ℕ → ℕ → ℕ
power x zero = 1
power x (suc n) = x * power x n

abbrev whole : Floats
whole = record {
  Num = ℕ;
  of_int = λ n. n;
  mul = λ a b. a * b;
  pow = power;
  to_int64 = λ n. if leb 1_000 n then negsuc 999 else pos n;
}

abbrev config : RelayConfig whole
config = record {
  batch_size = 10;
  poll_interval = 5;
  max_retries = 3;
  initial_backoff = 100;
  max_backoff = 150;
  backoff_factor = 2;
}

abbrev row : String → ℕ → OutboxMessage
unfolding new_outbox_message
row id retries = record (new_outbox_message id "a" [] [] 10) { retry_count = retries }

abbrev rows : List OutboxMessage
rows = row "new" 0 ∷ row "spent" 3 ∷ row "waits" 2 ∷ row "bad" 0 ∷ []

-- The world is the clock. The broker refuses the message "bad".
abbrev env : Environment ℕ
env = record {
  get_pending_messages = λ n w. (inr rows, w);
  mark_processed = λ id w. (none, w + 1);
  mark_failed = λ id err w. (none, w + 1);
  publish = λ topic m w. (if m.id == "bad" then some "refused" else none, w + 1);
  now = λ w. (w, w);
}

abbrev zeros : Metrics
zeros = record {
  errors_total = 0;
  messages_dropped = 0;
  publish_failures = 0;
  messages_processed = 0;
  messages_failed = 0;
  batch_size = 0;
}

process_batch-IsBatch_example :
    IsBatch config rows (process_batch (traced env) config zeros (50, [])).1.1
process_batch-IsBatch_example = process_batch-IsBatch env config zeros 50 50 rows refl

process_batch-counts_example :
    let r = process_batch (traced env) config zeros (50, []) in
    let calls = r.1.1 in
    (r.0.messages_failed ≡ 0 + total refusal calls)
    × (r.0.publish_failures ≡ 0 + total refusal calls)
    × (r.0.messages_processed + r.0.errors_total ≡ 0 + 0 + total delivery calls)
    × (r.0.messages_dropped + total delivery calls ≡ 0 + total marking calls)
process_batch-counts_example = process_batch-counts env config zeros 50 50 rows refl

-- One message is delivered, one refused, one dropped, and one waits.
counted :
    let r = (process_batch env config zeros 50).0 in
    (r.messages_processed ≡ 1)
    × (r.messages_failed ≡ 1)
    × (r.messages_dropped ≡ 1)
    × (r.batch_size ≡ 4)
unfolding process_batch row to_message
counted = (refl, refl, refl, refl)
