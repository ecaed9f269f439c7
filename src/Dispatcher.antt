-- ===== src/Dispatcher.antt =====
-- fraudlatch/dispatcher.py: a polling round over the outbox, from the query to the commit, and the loop of rounds.
pub mod Rows
pub mod Rounds
pub mod Runs
pub mod Main
pub mod Selection
pub mod Progress
pub mod Ingested
use Prim.Native.String.{◌++◌ as ◌^^◌}
use fraud_latch.Base.{
  ℕ, ◌+◌, ◌*◌, ◌≡◌, ◌⊎◌, String, Bool, true, false, not, ◌&&◌, Option, none, some, List, [], ◌∷◌,
  ◌++◌, ◌==◌, leb, ltb, length, take, keep, if◌then◌else◌,
}
use fraud_latch.Base.Time.{Datetime, add_seconds}
use fraud_latch.Base.Sorting.{order_by}
use fraud_latch.Base.Text.{prefix}
use fraud_latch.Base.Assoc.{Assoc, insert}
use fraud_latch.Base.Outcome.{Outcome, ok, raised, Error, value, succeeded}
use fraud_latch.Base.Action.{Action, pure, lift, ◌>>=◌, ◌>>◌}
use fraud_latch.Contracts.Events.{
  EventEnvelope, TransactionReceivedPayload, validate_payload, envelope,
}
use fraud_latch.Db.{StoredJson, OutboxEvent, OutboxStatus, waiting, published, failed_permanently}
use fraud_latch.Queue.Ports.{MessageHandle, QueuePort}
use fraud_latch.Queue.Retry.{classify_processing_error}

-- `OutboxDispatcher.batch_size`
abbrev pub batch_size : ℕ
batch_size = 100

abbrev pub is_waiting : OutboxStatus → Bool
is_waiting waiting = true
is_waiting _ = false

-- The `where` clause of the query.
unfoldable pub is_due : Datetime → OutboxEvent → Bool
is_due now row =
    is_waiting row.status
    && elim row.next_attempt_at [ none ↦ true | some t ↦ leb t.micros now.micros ]

-- `order_by(OutboxEvent.created_at)`
abbrev pub older : OutboxEvent → OutboxEvent → Bool
older r s = leb r.created_at s.created_at

abbrev pub by_age : List OutboxEvent → List OutboxEvent
by_age = order_by older

-- The rows under their keys, each replaced by its new value.
unfoldable pub write_rows : List OutboxEvent → Assoc OutboxEvent → Assoc OutboxEvent
write_rows [] table = table
write_rows (r ∷ rest) table = write_rows rest (insert r.event_id r table)

-- What the dispatcher uses of a database session. `outbox` is the committed table, and `unlocked` its rows that no other
-- transaction holds. `execute` runs the query: it filters, orders, limits, skips locked rows and locks the others.
-- `commit` writes the rows that were changed; one that raises has written all of them or none.
pub record OutboxSession (S : Type 0) : Type 0 where
  pub outbox : S → Assoc OutboxEvent
  pub unlocked : S → List OutboxEvent
  pub execute : (OutboxEvent → Bool) → ℕ → Action S (List OutboxEvent)
  pub commit : List OutboxEvent → Action S (Unit {0})
  pub execute-ok :
      (test : OutboxEvent → Bool) (limit : ℕ) (rows : List OutboxEvent) (s : S)
      → (execute test limit s).0 ≡ ok rows
      → rows ≡ take limit (by_age (keep test (unlocked s)))
  pub outbox-execute :
      (test : OutboxEvent → Bool) (limit : ℕ) (s : S) → outbox (execute test limit s).1 ≡ outbox s
  pub outbox-commit :
      (rows : List OutboxEvent) (s : S)
      → succeeded (commit rows s).0 ≡ true
      → outbox (commit rows s).1 ≡ write_rows rows (outbox s)
  pub outbox-commit_any :
      (rows : List OutboxEvent) (s : S)
      → (outbox (commit rows s).1 ≡ outbox s)
        ⊎ (outbox (commit rows s).1 ≡ write_rows rows (outbox s))

-- The calls of DispatcherMetrics.
pub data Metric : Type 0 where
  pending_rows : ℕ → Metric
  row_published : Metric
  row_failed : String → Metric

-- The delay after a transient failure: `1 if attempts == 1 else 5 if attempts == 2 else 60`.
abbrev pub backoff : ℕ → ℕ
backoff attempts = if attempts == 1 then 1 else if attempts == 2 then 5 else 60

-- The row, its attempt counted already, after a publication that returned.
unfoldable pub mark_published : OutboxEvent → Datetime → OutboxEvent
mark_published row now = record row {
  status = published;
  published_at = some now;
  next_attempt_at = none;
  last_error = none;
}

-- The row after an error with its code and whether it is transient.
unfoldable pub mark_failed : OutboxEvent → Datetime → Error → String → Bool → OutboxEvent
mark_failed row now error code true = record row {
  last_error = some (prefix 512 (code ^^ (": " ^^ error.message)));
  status = waiting;
  next_attempt_at = some (add_seconds now (backoff row.attempts));
}
mark_failed row now error code false = record row {
  last_error = some (prefix 512 (code ^^ (": " ^^ error.message)));
  status = failed_permanently;
  next_attempt_at = none;
}

-- What `_dispatch_event` makes of the row and of the metrics, by how the publication ended.
unfoldable pub settle : OutboxEvent → Datetime → Outcome MessageHandle → OutboxEvent × List Metric
unfolding mark_published mark_failed
settle row now (ok handle) = (mark_published row now, row_published ∷ [])
settle row now (raised error) =
    let (code, is_transient) = classify_processing_error error in
    (mark_failed row now error code is_transient, if is_transient then [] else row_failed code ∷ [])

-- `event.attempts += 1`
abbrev pub counted : OutboxEvent → OutboxEvent
counted row = record row { attempts = row.attempts + 1 }

-- The routines that read a row's texts. `is_uuid` is whether `uuid.UUID` accepts a text, and `uuid` the text of what it makes
-- of it; `is_readable` is whether Pydantic finds a value for each field of a payload in a JSON value, and `fields` those values.
pub record Readers : Type 0 where
  pub is_uuid : String → Bool
  pub uuid : String → String
  pub is_readable : StoredJson → Bool
  pub fields : StoredJson → TransactionReceivedPayload

-- The envelope of a row, before validation.
abbrev pub envelope_of : Readers → OutboxEvent → EventEnvelope
envelope_of readers row = record {
  event_id = readers.uuid row.event_id;
  event_type = row.event_type;
  schema_version = row.schema_version;
  occurred_at = row.occurred_at;
  aggregate_id = row.aggregate_id;
  payload = readers.fields row.payload;
}

module _ {Q : Type 0} (queue : QueuePort Q) (readers : Readers) where
  open queue use {publish}

  -- `UUID(event.event_id)`
  abbrev parse_uuid : String → Outcome String
  parse_uuid s =
      if readers.is_uuid s
      then ok (readers.uuid s)
      else raised (record { kind = value; message = "badly formed hexadecimal UUID string" })

  -- `TransactionReceivedPayload.model_validate(event.payload)`
  abbrev model_validate : StoredJson → Outcome TransactionReceivedPayload
  model_validate json =
      if readers.is_readable json
      then validate_payload (readers.fields json)
      else raised (record { kind = value; message = "TransactionReceivedPayload" })

  -- The `try` block of `_dispatch_event`.
  unfoldable pub publish_row : OutboxEvent → Action Q MessageHandle
  publish_row row = do
    lift (parse_uuid row.event_id)
    lift (model_validate row.payload)
    event ← lift (envelope (envelope_of readers row))
    publish event

  -- `_dispatch_event`: it never raises.
  unfoldable pub dispatch_event : OutboxEvent → Datetime → Q → (OutboxEvent × List Metric) × Q
  unfolding publish_row settle
  dispatch_event row now q =
      let (o, q') = publish_row (counted row) q in (settle (counted row) now o, q')

  -- The loop over the batch: the rows as changed, the metrics calls and the broker.
  unfoldable pub dispatch_rows :
      List OutboxEvent → Datetime → Q → List OutboxEvent × List Metric × Q
  unfolding dispatch_event
  dispatch_rows [] now q = ([], [], q)
  dispatch_rows (row ∷ rest) now q =
      let ((row', calls), q') = dispatch_event row now q in
      let (rest', more, q'') = dispatch_rows rest now q' in (row' ∷ rest', calls ++ more, q'')

-- The dispatcher's world: the database session, the broker and the metrics calls made so far.
pub record World (S Q : Type 0) : Type 0 where
  pub db : S
  pub broker : Q
  pub metrics : List Metric

module _ {S Q : Type 0} (session : OutboxSession S) (queue : QueuePort Q) (readers : Readers) where
  open session use {execute, commit}

  abbrev on_db : {A : Type 0} → Action S A → Action (World S Q) A
  on_db m w = ((m w.db).0, record w { db = (m w.db).1 })

  abbrev note : List Metric → Action (World S Q) (Unit {0})
  note calls w = (ok tt, record w { metrics = w.metrics ++ calls })

  -- `for event in events: await self._dispatch_event(session, event, now)`
  abbrev dispatch_all : List OutboxEvent → Datetime → Action (World S Q) (List OutboxEvent)
  dispatch_all rows now w =
      let (rows', calls, q') = dispatch_rows queue readers rows now w.broker in
      (ok rows', record w { broker = q'; metrics = w.metrics ++ calls })

  -- `dispatch_once`, where `now` is the clock at its start
  unfoldable pub dispatch_once : Datetime → Action (World S Q) ℕ
  dispatch_once now = do
    rows ← on_db (execute (is_due now) batch_size)
    note (pending_rows (length rows) ∷ [])
    rows' ← dispatch_all rows now
    on_db (commit rows')
    pure (length rows)

  -- `run`, by the clock's reading at each round until the stop event is found set. The wait between two rounds changes nothing.
  unfoldable pub run : List Datetime → Action (World S Q) (Unit {0})
  unfolding dispatch_once
  run [] = pure tt
  run (now ∷ later) = dispatch_once now >> run later
