-- ===== src/Tests/DispatcherTests.antt =====
-- A polling round over an outbox of one row, with the broker in memory.
use fraud_latch.Base.{◌≡◌, refl, arith, true, none, some, List, [], ◌∷◌, keep, take, inl, inr}
use fraud_latch.Base.Int.{pos}
use fraud_latch.Base.Time.{Datetime}
use fraud_latch.Base.Sorting.{order_by, insert_by}
use fraud_latch.Base.Assoc.{Assoc, lookup}
use fraud_latch.Base.Outcome.{ok}
use fraud_latch.Contracts.Transaction.{text_within}
use fraud_latch.Contracts.Events.{
  envelope, envelope_holds, payload_holds, is_supported, validate_schema_version,
}
use fraud_latch.Db.{OutboxEvent, waiting, published}
use fraud_latch.Dispatcher.{
  Readers, OutboxSession, World, dispatch_event, dispatch_rows, dispatch_once, is_due, by_age,
  write_rows,
}
use fraud_latch.Dispatcher.Progress.{IsPublishable, dispatch_once_publishes}
use fraud_latch.Dispatcher.Rounds.{IsDelivered}
use fraud_latch.Tests.Memory.{Broker, memory_queue, no_messages, ok-injective}
use fraud_latch.Tests.RiskTests.{sample}

abbrev pub row : OutboxEvent
row = record {
  event_id = "e1";
  event_type = "transaction.received";
  schema_version = pos 1;
  occurred_at = record { micros = 1000000000; aware = true };
  aggregate_id = "t1";
  payload = "t1";
  status = waiting;
  attempts = 0;
  next_attempt_at = none;
  published_at = none;
  last_error = none;
  created_at = 7;
}

abbrev pub now : Datetime
now = record { micros = 2000000000; aware = true }

-- Readers of a JSON value that has the identifier alone, of a transaction that is else the sample.
abbrev pub any_readers : Readers
any_readers = record {
  is_uuid = λ s. true;
  uuid = λ s. s;
  is_readable = λ j. true;
  fields = λ j. record sample { transaction_id = j };
}

-- The committed table and its unlocked rows.
pub record Outbox : Type 0 where
  pub table : Assoc OutboxEvent
  pub free : List OutboxEvent

abbrev pub memory_outbox : OutboxSession Outbox
memory_outbox = record {
  outbox = λ s. s.table;
  unlocked = λ s. s.free;
  execute = λ test limit s. (ok (take limit (by_age (keep test s.free))), s);
  commit = λ rows s. (ok tt, record s { table = write_rows rows s.table });
  execute-ok = λ test limit rows s h. ok-injective _ _ h;
  outbox-execute = λ test limit s. refl;
  outbox-commit = λ rows s h. refl;
  outbox-commit_any = λ rows s. inr refl;
}

abbrev start : World Outbox Broker
start = record {
  db = record { table = ("e1", row) ∷ []; free = row ∷ [] };
  broker = no_messages;
  metrics = [];
}

abbrev round : World Outbox Broker
round = (dispatch_once memory_outbox memory_queue any_readers now start).1

one_row : (dispatch_once memory_outbox memory_queue any_readers now start).0 ≡ ok 1
unfolding dispatch_once dispatch_rows is_due order_by insert_by write_rows
one_row = refl

start-IsDelivered : IsDelivered memory_outbox memory_queue any_readers start
unfolding lookup
start-IsDelivered k r e p = ground (arith, e, p)

-- The row after the round.
abbrev row_after : OutboxEvent
row_after = (dispatch_event memory_queue any_readers row now no_messages).0.0

row-IsPublishable : IsPublishable any_readers row
unfolding envelope envelope_holds payload_holds is_supported validate_schema_version text_within
row-IsPublishable = (refl, refl, refl, refl)

dispatch_once_publishes_example :
    (r : OutboxEvent) × (lookup "e1" round.db.table ≡ some r) × (r.status ≡ published)
unfolding is_due order_by insert_by
dispatch_once_publishes_example =
    dispatch_once_publishes memory_outbox memory_queue any_readers now start (λ e q. refl) one_row
      (tt, tt) row (inl refl) row-IsPublishable
