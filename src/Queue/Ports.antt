-- ===== src/Queue/Ports.antt =====
-- fraudlatch/queue/ports.py: handles, messages and the queue interface.
use fraud_latch.Base.{ℕ, ◌≡◌, ◌≢◌, String, Bool, true, Option, List}
use fraud_latch.Base.Outcome.{succeeded}
use fraud_latch.Base.Action.{Action}
use fraud_latch.Contracts.Events.{EventEnvelope}

-- `MessageHandle`
pub record MessageHandle : Type 0 where
  pub queue : String
  pub message_id : String

-- `QueueMessage`
pub record QueueMessage : Type 0 where
  pub handle : MessageHandle
  pub event : EventEnvelope
  pub raw_payload : String
  pub attempts : ℕ

-- `QueuePort`. `acked` tells whether a message has been acknowledged. An `ack` concerns its own message alone, and a `nack` or a `consume` none.
pub record QueuePort (Q : Type 0) : Type 0 where
  pub acked : Q → String → Bool
  -- Whether an event has been published.
  pub sent : Q → EventEnvelope → Bool
  pub publish : EventEnvelope → Action Q MessageHandle
  pub consume : String → ℕ → Option ℕ → Action Q (List QueueMessage)
  pub ack : MessageHandle → Action Q (Unit {0})
  pub nack : MessageHandle → String → Action Q (Unit {0})
  pub sent-publish :
      (e : EventEnvelope) (q : Q) → succeeded (publish e q).0 ≡ true → sent (publish e q).1 e ≡ true
  pub sent_stays : (e x : EventEnvelope) (q : Q) → sent q x ≡ true → sent (publish e q).1 x ≡ true
  pub acked-ack :
      (h : MessageHandle) (q : Q)
      → succeeded (ack h q).0 ≡ true
      → acked (ack h q).1 h.message_id ≡ true
  pub acked-ack_ne :
      (h : MessageHandle) (q : Q) (id : String)
      → id ≢ h.message_id
      → acked (ack h q).1 id ≡ acked q id
  pub acked-consume :
      (name : String) (n : ℕ) (block_ms : Option ℕ) (q : Q) (id : String)
      → acked (consume name n block_ms q).1 id ≡ acked q id
  pub acked-nack :
      (h : MessageHandle) (r : String) (q : Q) (id : String) → acked (nack h r q).1 id ≡ acked q id
