-- ===== src/Messaging/Message.antt =====
-- messaging/message.go and messaging/outbox.go: messages and outbox rows.
use microlib.Prelude.{ℕ, Option, none, List, String, Dict}

pub record Message : Type 0 where
  pub id : String
  pub body : List ℕ
  pub headers : Dict String String

pub record OutboxMessage : Type 0 where
  pub id : String
  pub topic : String
  pub payload : List ℕ
  pub headers : Dict String String
  pub created_at : ℕ
  pub processed_at : Option ℕ
  pub retry_count : ℕ
  pub error : String

-- A nil map of headers is an empty one.
unfoldable pub new_outbox_message :
    String → String → List ℕ → Dict String String → ℕ → OutboxMessage
new_outbox_message id topic payload headers now = record {
  id = id;
  topic = topic;
  payload = payload;
  headers = headers;
  created_at = now;
  processed_at = none;
  retry_count = 0;
  error = "";
}

unfoldable pub to_message : OutboxMessage → Message
to_message m = record { id = m.id; body = m.payload; headers = m.headers }
