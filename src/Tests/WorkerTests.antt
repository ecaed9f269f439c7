-- ===== src/Tests/WorkerTests.antt =====
-- The worker over the database store in memory: a first delivery, a redelivery and a failing calculation.
use fraud_latch.Base.{ℕ, ◌≡◌, ◌≢◌, refl, arith, String, Option, none, some, [], ◌∷◌, true, false}
use fraud_latch.Base.Int.{pos}
use fraud_latch.Base.Assoc.{lookup, insert}
use fraud_latch.Base.Outcome.{ok, raised, succeeded, Error, other}
use fraud_latch.Base.Action.{Action}
use fraud_latch.Contracts.Events.{EventEnvelope}
use fraud_latch.Db.{Tables, completed, apply, apply_all}
use fraud_latch.Risk.Models.{RiskDecision, low}
use fraud_latch.Queue.Retry.{RetryDecision}
use fraud_latch.Queue.Ports.{QueueMessage}
use fraud_latch.Api.RiskRepository.{with_result, persist_risk_result}
use fraud_latch.Worker.{World, process, persist}
use fraud_latch.Worker.Durability.{IsClean}
use fraud_latch.Worker.Redelivery.{process_redelivered}
use fraud_latch.Worker.DatabaseStore.{
  database_store, process-committed, durable, transaction_exists, assessment_status,
  mark_processing, persist_decision, marked,
}
use fraud_latch.Tests.Memory.{Store, memory_session, memory_queue, Broker, no_messages}
use fraud_latch.Tests.RiskTests.{sample}
use fraud_latch.Tests.EventTests.{event}

abbrev pub message : QueueMessage
message = record {
  handle = record { queue = "q"; message_id = "1-0" };
  event = event;
  raw_payload = "{e1}";
  attempts = 1;
}

abbrev pub tables : Tables
tables = record {
  transactions = ("t1", sample) ∷ [];
  assessments = [];
  processing_events = [];
  outbox = [];
}

abbrev pub start : World Store Broker
start = record { db = record { visible = tables; committed = tables }; broker = no_messages }

abbrev pub verdict : RiskDecision
verdict = record { risk_score = pos 0; risk_level = low; reasons = [] }

abbrev pub decide_low : EventEnvelope → Action Broker (Option RiskDecision)
decide_low e q = (ok (some verdict), q)

abbrev crash : Error
crash = record { kind = other; message = "" }

abbrev crashing : EventEnvelope → Action Broker (Option RiskDecision)
crashing e q = (raised crash, q)

abbrev pub note_failure : EventEnvelope → ℕ → Error → Action Broker RetryDecision
note_failure e n x q = (
  ok (record { attempt = n; error_code = "processing_error"; retry = false; delay_seconds = 0 }),
  q,
)

pub always_decides : (e : EventEnvelope) (q : Broker) → (decide_low e q).0 ≢ ok none
always_decides e q h = ground arith

first_delivery :
    (process (database_store memory_session) memory_queue decide_low note_failure message start).0
    ≡ ok true
unfolding process database_store transaction_exists assessment_status mark_processing
    persist_decision marked persist persist_risk_result with_result apply_all apply lookup insert
first_delivery = refl

process-committed_example :
    durable memory_session
      (process
        (database_store memory_session)
        memory_queue
        decide_low
        note_failure
        message
        start).1.db
      "t1"
    ≡ some completed
process-committed_example =
    process-committed memory_session memory_queue decide_low note_failure message start
      always_decides refl first_delivery

start-IsClean : IsClean (database_store memory_session) start.db
unfolding database_store
start-IsClean j = refl

-- The message delivered a second time.
abbrev again : QueueMessage
again = record message { attempts = 2 }

process_redelivered_example :
    let db =
      (process
        (database_store memory_session)
        memory_queue
        decide_low
        note_failure
        message
        start).1.db in
    let v : World Store Broker = record { db = db; broker = no_messages } in
    ((j : String)
      → (database_store memory_session).durable
          (process (database_store memory_session) memory_queue crashing note_failure again v).1.db
          j
        ≡ (database_store memory_session).durable db j)
    × (process (database_store memory_session) memory_queue crashing note_failure again v
        ≡ process (database_store memory_session) memory_queue decide_low note_failure again v)
process_redelivered_example =
    process_redelivered (database_store memory_session) memory_queue decide_low note_failure message
      start always_decides start-IsClean first_delivery again no_messages refl crashing decide_low

failed_run :
    (process (database_store memory_session) memory_queue crashing note_failure message start).0
    ≡ ok false
unfolding process database_store transaction_exists assessment_status mark_processing marked
    apply_all apply lookup insert
failed_run = refl

returned :
    succeeded
      (process (database_store memory_session) memory_queue crashing note_failure message start).0
    ≡ true
returned = rw failed_run
