-- ===== src/Messaging/Broker/Delivery.antt =====
-- messaging/memory_broker.go: who gets a message.
use mathlib.Core.List.{append_assoc, append-nil}
use microlib.Prelude.{
  ◌≡◌, refl, sym, ap, ◌∙◌, false, none, List, [], ◌∷◌, ◌++◌, String, Dict, lookup, insert,
  lookup-insert, if◌then◌else◌, ◌==◌, string_eq, arith, inl, inr, Bool-cases,
}
use microlib.Messaging.Message.{Message}
use microlib.Messaging.Broker.{
  MessageHandler, MemoryBroker, new_memory_broker, call_all, publish, handlers_of, subscribe,
}

module _ {W : Type 0} where
  -- A broker after subscriptions, in order.
  unfoldable pub subscribe_all : List (String × MessageHandler W) → MemoryBroker W → MemoryBroker W
  subscribe_all [] b = b
  subscribe_all ((topic, handler) ∷ rest) b = subscribe_all rest (subscribe topic handler b).1

  -- The handlers subscribed to a topic, in order.
  unfoldable for_topic : String → List (String × MessageHandler W) → List (MessageHandler W)
  for_topic topic [] = []
  for_topic topic ((t, handler) ∷ rest) =
      let more = for_topic topic rest in if t == topic then handler ∷ more else more

  publish-eq :
      (b : MemoryBroker W) (topic : String) (m : Message) (w : W)
      → b.closed ≡ false
      → publish b topic m w ≡ (none, call_all (handlers_of (lookup topic b.subscribers)) m w)
  unfolding publish call_all
  publish-eq b topic m w up = ground arith

  closed-subscribe_all :
      (subs : List (String × MessageHandler W)) (b : MemoryBroker W)
      → (subscribe_all subs b).closed ≡ b.closed
  unfolding subscribe_all subscribe
  closed-subscribe_all [] b = refl
  closed-subscribe_all ((t, h) ∷ subs) b =
      closed-subscribe_all subs (subscribe t h b).1 ∙ ground arith

  handlers-insert :
      (t topic : String) (h : MessageHandler W) (d : Dict String (List (MessageHandler W)))
      → handlers_of (lookup topic (insert t (handlers_of (lookup t d) ++ h ∷ []) d))
        ≡ handlers_of (lookup topic d) ++ (if t == topic then h ∷ [] else [])
  handlers-insert t topic h d = elim (Bool-cases (t == topic)) [
    | inl same ↦
        rw (lookup-insert t topic, same)
          (ap (λ k. handlers_of (lookup k d) ++ h ∷ []) ((string_eq.equal_iff t topic).0 same))
    | inr other ↦
        rw (lookup-insert t topic, other) (sym (append-nil (handlers_of (lookup topic d))))
  ]

  handlers-subscribe :
      (t topic : String) (h : MessageHandler W) (b : MemoryBroker W)
      → b.closed ≡ false
      → handlers_of (lookup topic (subscribe t h b).1.subscribers)
        ≡ handlers_of (lookup topic b.subscribers) ++ (if t == topic then h ∷ [] else [])
  unfolding subscribe
  handlers-subscribe t topic h b up = rw up (handlers-insert t topic h b.subscribers)

  append_if :
      (t topic : String) (h : MessageHandler W) (xs ys : List (MessageHandler W))
      → (xs ++ (if t == topic then h ∷ [] else [])) ++ ys
        ≡ xs ++ (if t == topic then h ∷ ys else ys)
  append_if t topic h xs ys = elim (Bool-cases (t == topic)) [
    | inl same ↦ rw same (append_assoc xs (h ∷ []) ys)
    | inr other ↦ rw other (append_assoc xs [] ys)
  ]

  handlers-subscribe_all :
      (subs : List (String × MessageHandler W)) (b : MemoryBroker W) (topic : String)
      → b.closed ≡ false
      → handlers_of (lookup topic (subscribe_all subs b).subscribers)
        ≡ handlers_of (lookup topic b.subscribers) ++ for_topic topic subs
  unfolding subscribe_all for_topic
  handlers-subscribe_all [] b topic up = sym (append-nil (handlers_of (lookup topic b.subscribers)))
  handlers-subscribe_all ((t, h) ∷ subs) b topic up =
      handlers-subscribe_all subs (subscribe t h b).1 topic
        (closed-subscribe_all ((t, h) ∷ []) b ∙ up)
      ∙ ap (λ hs. hs ++ for_topic topic subs) (handlers-subscribe t topic h b up)
      ∙ append_if t topic h (handlers_of (lookup topic b.subscribers)) (for_topic topic subs)

  -- The world after each subscription in order has acted, if it is for the topic.
  unfoldable pub delivered : String → List (String × MessageHandler W) → Message → W → W
  delivered topic [] m w = w
  delivered topic ((t, handler) ∷ rest) m w =
      delivered topic rest m (if t == topic then (handler m w).1 else w)

  call_all-for_topic :
      (subs : List (String × MessageHandler W)) (topic : String) (m : Message) (w : W)
      → call_all (for_topic topic subs) m w ≡ delivered topic subs m w
  unfolding call_all for_topic delivered
  call_all-for_topic [] topic m w = refl
  call_all-for_topic ((t, h) ∷ subs) topic m w = elim (Bool-cases (t == topic)) [
    | inl same ↦ rw same (call_all-for_topic subs topic m (h m w).1)
    | inr other ↦ rw other (call_all-for_topic subs topic m w)
  ]

  -- Publishing on a broker that has had any sequence of subscriptions returns no error and lets each
  -- subscription to exactly that topic act on the message once, in the order in which they were
  -- made, in the world that the one before it left, whatever errors the handlers return.
  pub publish-subscribe_all :
      (subs : List (String × MessageHandler W)) (topic : String) (m : Message) (w : W)
      → publish (subscribe_all subs new_memory_broker) topic m w ≡ (none, delivered topic subs m w)
  unfolding new_memory_broker lookup
  publish-subscribe_all subs topic m w =
      publish-eq (subscribe_all subs new_memory_broker) topic m w
        (closed-subscribe_all subs new_memory_broker)
      ∙ ap (λ hs. (none, call_all hs m w))
          (handlers-subscribe_all subs new_memory_broker topic refl)
      ∙ ap (λ v. (none, v)) (call_all-for_topic subs topic m w)
