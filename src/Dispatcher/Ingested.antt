-- ===== src/Dispatcher/Ingested.antt =====
-- From fraudlatch/api/repository.py to fraudlatch/dispatcher.py: the outbox row that a request writes passes the dispatcher's validation.
use fraud_latch.Base.{ℕ, ◌≡◌, refl, String, true, arith}
use fraud_latch.Base.Time.{Datetime}
use fraud_latch.Base.Int.{pos}
use fraud_latch.Base.Outcome.{ok}
use fraud_latch.Contracts.Transaction.{text_within}
use fraud_latch.Contracts.Events.{
  EventEnvelope, envelope, envelope_holds, payload_holds, is_supported, validate_payload,
  validate_schema_version,
}
use fraud_latch.Db.{StoredJson}
use fraud_latch.Queue.Ports.{QueuePort}
use fraud_latch.Api.Repository.{TransactionIn, body_holds, transaction_in, new_outbox_event}
use fraud_latch.Dispatcher.{Readers, Readers, publish_row, counted, is_due}

-- What TransactionIn accepts, TransactionReceivedPayload accepts.
accepted-payload : (p : TransactionIn) → body_holds p ≡ true → payload_holds p ≡ true
unfolding body_holds payload_holds
accepted-payload p h = ground (arith, h)

transaction_in-holds : (p : TransactionIn) → transaction_in p ≡ ok p → payload_holds p ≡ true
unfolding transaction_in
transaction_in-holds p h = accepted-payload p (ground (arith, h))

-- The event that a request with the body `p` is about.
abbrev pub received : String → TransactionIn → EventEnvelope
received event_id p = record {
  event_id = event_id;
  event_type = "transaction.received";
  schema_version = pos 1;
  occurred_at = p.event_time;
  aggregate_id = p.transaction_id;
  payload = p;
}

received-holds :
    (event_id : String) (p : TransactionIn)
    → transaction_in p ≡ ok p
    → envelope_holds (received event_id p) ≡ true
unfolding envelope_holds text_within payload_holds
received-holds event_id p h = ground (arith, transaction_in-holds p h)

-- The row that a request with a valid body writes is due at once, and publishing it ends as the queue's publish of the event with
-- that body ends, if `uuid.UUID` accepts the event's identifier and Pydantic reads from the JSON of the body the fields that it
-- was made of.
pub new_outbox_event-publish_row :
    (model_dump : TransactionIn → StoredJson) (readers : Readers) (event_id : String)
    (created_at : ℕ) (p : TransactionIn)
    → transaction_in p ≡ ok p
    → readers.is_uuid event_id ≡ true
    → readers.is_readable (model_dump p) ≡ true
    → readers.fields (model_dump p) ≡ p
    → {Q : Type 0} (queue : QueuePort Q) (now : Datetime) (q : Q)
    → let row = new_outbox_event model_dump event_id created_at p in
      (is_due now row ≡ true)
      × (publish_row queue readers (counted row) q
          ≡ queue.publish (received (readers.uuid event_id) p) q)
unfolding publish_row envelope validate_payload validate_schema_version is_supported is_due
new_outbox_event-publish_row model_dump readers event_id created_at p h u j f queue now q =
    (refl, rw (u, j, f, transaction_in-holds p h, received-holds (readers.uuid event_id) p h))
