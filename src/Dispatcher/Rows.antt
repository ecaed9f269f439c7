-- ===== src/Dispatcher/Rows.antt =====
-- What `_dispatch_event` of fraudlatch/dispatcher.py makes of one row.
use Prim.Native.String.{count}
use fraud_latch.Base.{
  ◌+◌, ◌≡◌, ◌≢◌, ◌≤◌, refl, ◌⊎◌, inl, inr, String, Bool, true, false, Option, none, some, arith,
}
use fraud_latch.Base.Time.{Datetime, add_seconds}
use fraud_latch.Base.Text.{count-prefix-le}
use fraud_latch.Base.Outcome.{Outcome, ok, raised, Error, succeeded}
use fraud_latch.Contracts.Events.{
  EventEnvelope, envelope, validate_payload, validate_schema_version,
}
use fraud_latch.Db.{OutboxEvent, waiting, published, failed_permanently}
use fraud_latch.Queue.Ports.{QueuePort, MessageHandle}
use fraud_latch.Queue.Retry.{classify_processing_error}
use fraud_latch.Queue.Retry.Handler.{IsTransient, classify_iff, may_retry}
use fraud_latch.Dispatcher.{
  Readers, publish_row, dispatch_event, envelope_of, counted, backoff, settle, mark_failed,
}

-- The error text fits its column.
abbrev pub ErrorFits : Option String → Type 0
ErrorFits none = Unit
ErrorFits (some s) = count s ≤ 512

-- What a row has become, by how its publication ended.
abbrev pub Settled : {A : Type 0} → Outcome A → OutboxEvent → Datetime → OutboxEvent → Type 0
Settled (ok a) row now row' =
    (row'.status ≡ published)
    × (row'.published_at ≡ some now)
    × (row'.next_attempt_at ≡ none)
    × (row'.last_error ≡ none)
Settled (raised e) row now row' =
    ((IsTransient e.kind
        × (row'.status ≡ waiting)
        × (row'.next_attempt_at ≡ some (add_seconds now (backoff (row.attempts + 1)))))
      ⊎ ((¬ IsTransient e.kind)
          × (row'.status ≡ failed_permanently)
          × (row'.next_attempt_at ≡ none)))
    × (row'.published_at ≡ row.published_at)
    × ErrorFits row'.last_error

mark_failed-Settled :
    (row : OutboxEvent) (now : Datetime) (e : Error) (code : String) (b : Bool)
    → may_retry e ≡ b
    → Settled {A = Unit {0}} (raised e) row now (mark_failed (counted row) now e code b)
unfolding mark_failed
mark_failed-Settled row now e code true h =
    (inl ((classify_iff e).0 h, refl, refl), refl, count-prefix-le 512 _)
mark_failed-Settled row now e code false h =
    (inr (λ t. cc (h, (classify_iff e).1 t), refl, refl), refl, count-prefix-le 512 _)

mark_failed_same :
    (readers : Readers) (row : OutboxEvent) (now : Datetime) (e : Error) (code : String) (b : Bool)
    → ((mark_failed row now e code b).attempts ≡ row.attempts)
      × (envelope_of readers (mark_failed row now e code b) ≡ envelope_of readers row)
      × ((mark_failed row now e code b).status ≢ published)
unfolding mark_failed
mark_failed_same readers row now e code true = (refl, refl, λ h. ground arith)
mark_failed_same readers row now e code false = (refl, refl, λ h. ground arith)

event_id-mark_failed :
    (row : OutboxEvent) (now : Datetime) (e : Error) (code : String) (b : Bool)
    → (mark_failed row now e code b).event_id ≡ row.event_id
unfolding mark_failed
event_id-mark_failed row now e code true = refl
event_id-mark_failed row now e code false = refl

settle_lem :
    (readers : Readers) (row : OutboxEvent) (now : Datetime) (o : Outcome MessageHandle)
    → let after = (settle (counted row) now o).0 in
      (after.attempts ≡ row.attempts + 1)
      × (envelope_of readers after ≡ envelope_of readers row)
      × Settled o row now after
unfolding settle
settle_lem readers row now (ok handle) = (refl, refl, (refl, refl, refl, refl))
settle_lem readers row now (raised e) =
    let (code, b) = classify_processing_error e in
    let same = mark_failed_same readers (counted row) now e code b in
    (same.0, same.1, mark_failed-Settled row now e code b refl)

pub event_id-settle :
    (row : OutboxEvent) (now : Datetime) (o : Outcome MessageHandle)
    → (settle row now o).0.event_id ≡ row.event_id
unfolding settle
event_id-settle row now (ok handle) = refl
event_id-settle row now (raised e) =
    let (code, b) = classify_processing_error e in event_id-mark_failed row now e code b

settle_published :
    (readers : Readers) (row : OutboxEvent) (now : Datetime) (o : Outcome MessageHandle)
    → (settle row now o).0.status ≡ published
    → succeeded o ≡ true
unfolding settle
settle_published readers row now (ok handle) h = refl
settle_published readers row now (raised e) h =
    let (code, b) = classify_processing_error e in
    absurd ((mark_failed_same readers row now e code b).2 h)

module _ {Q : Type 0} (queue : QueuePort Q) (readers : Readers) where
  open queue use {sent, sent-publish, sent_stays}

  publish_row-sent :
      (row : OutboxEvent) (q : Q)
      → succeeded (publish_row queue readers row q).0 ≡ true
      → sent (publish_row queue readers row q).1 (envelope_of readers row) ≡ true
  unfolding publish_row validate_payload envelope validate_schema_version
  publish_row-sent row q h = ground (arith, sent-publish (envelope_of readers row) q)

  -- What was published before a row stays published.
  pub dispatch_event-sent_stays :
      (row : OutboxEvent) (now : Datetime) (q : Q) (x : EventEnvelope)
      → sent q x ≡ true
      → sent (dispatch_event queue readers row now q).1 x ≡ true
  unfolding dispatch_event publish_row validate_payload envelope validate_schema_version
  dispatch_event-sent_stays row now q x h = ground (arith, sent_stays (envelope_of readers row) x q)

module _ {Q : Type 0} (queue : QueuePort Q) (readers : Readers) (row : OutboxEvent) (now : Datetime)
    (q : Q) where
  open queue use {sent}

  abbrev after : OutboxEvent
  after = (dispatch_event queue readers row now q).0.0

  -- A dispatched row has one attempt more and the same event. It is published if the publication returned; after a transient
  -- error it waits for its next attempt, 1, 5 or 60 seconds later by its attempts; after another error
  -- it has failed for good. A recorded error has at most 512 characters.
  pub dispatch_event-Settled :
      (after.attempts ≡ row.attempts + 1)
      × (envelope_of readers after ≡ envelope_of readers row)
      × Settled (publish_row queue readers (counted row) q).0 row now after
  unfolding dispatch_event
  dispatch_event-Settled = settle_lem readers row now (publish_row queue readers (counted row) q).0

  -- A row that comes out as published has its event in the broker.
  pub dispatch_event-sent :
      after.status ≡ published
      → sent (dispatch_event queue readers row now q).1 (envelope_of readers row) ≡ true
  unfolding dispatch_event
  dispatch_event-sent h =
      publish_row-sent queue readers (counted row) q
        (settle_published readers (counted row) now (publish_row queue readers (counted row) q).0 h)
