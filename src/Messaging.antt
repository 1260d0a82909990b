-- ===== src/Messaging.antt =====
-- messaging/: the in-memory broker, the outbox and its relay.
pub mod Message
pub mod Broker
pub mod Relay
