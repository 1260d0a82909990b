-- ===== src/Messaging/Broker.antt =====
-- messaging/memory_broker.go: MemoryBroker. A handler acts on a world `W` and may return an error.
pub mod Delivery
use microlib.Prelude.{
  Bool, true, false, Option, none, some, List, [], ◌∷◌, ◌++◌, String, Dict, lookup, insert,
  if◌then◌else◌, string_eq,
}
use microlib.Messaging.Message.{Message}

abbrev pub MessageHandler : Type 0 → Type 0
MessageHandler W = Message → W → Option String × W

pub record MemoryBroker (W : Type 0) : Type 0 where
  pub subscribers : Dict String (List (MessageHandler W))
  pub closed : Bool

-- The only error of the broker.
pub data BrokerError : Type 0 where
  broker_closed : BrokerError

module _ {W : Type 0} where
  unfoldable pub new_memory_broker : MemoryBroker W
  new_memory_broker = record { subscribers = []; closed = false }

  -- The loop over the handlers: an error is passed over.
  unfoldable pub call_all : List (MessageHandler W) → Message → W → W
  call_all [] m w = w
  call_all (handler ∷ handlers) m w = call_all handlers m (handler m w).1

  unfoldable pub publish : MemoryBroker W → String → Message → W → Option BrokerError × W
  unfolding call_all
  publish b topic m w =
      if b.closed then (some broker_closed, w) else elim (lookup topic b.subscribers) [
        | none ↦ (none, w)
        | some handlers ↦ (none, call_all handlers m w)
      ]

  abbrev pub handlers_of : Option (List (MessageHandler W)) → List (MessageHandler W)
  handlers_of none = []
  handlers_of (some handlers) = handlers

  unfoldable pub subscribe :
      String → MessageHandler W → MemoryBroker W → Option BrokerError × MemoryBroker W
  subscribe topic handler b = if b.closed then (some broker_closed, b) else (
    none,
    record b {
      subscribers =
          insert topic (handlers_of (lookup topic b.subscribers) ++ handler ∷ []) b.subscribers;
    },
  )

  unfoldable pub close : MemoryBroker W → MemoryBroker W
  close b = record { subscribers = []; closed = true }
