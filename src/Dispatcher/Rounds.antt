-- ===== src/Dispatcher/Rounds.antt =====
-- A polling round of fraudlatch/dispatcher.py: what it selects, what it commits, and that no row is marked
-- as published whose event is not in the broker.
use mathlib.Core.Path.{subst}
use fraud_latch.Base.{
  ℕ, ◌≡◌, ap, sym, ◌∙◌, ◌⊎◌, inl, inr, String, Bool, true, false, Option, some, List, [], ◌∷◌, ◌++◌,
  arith, All, str_eq, if◌then◌else◌, take, keep, length,
}
use fraud_latch.Base.Assoc.{Assoc, lookup, insert, lookup-insert}
use fraud_latch.Base.Time.{Datetime}
use fraud_latch.Base.Outcome.{ok, raised, Error}
use fraud_latch.Contracts.Events.{EventEnvelope}
use fraud_latch.Db.{OutboxEvent, published}
use fraud_latch.Queue.Ports.{QueuePort}
use fraud_latch.Dispatcher.{
  Readers, OutboxSession, World, pending_rows, batch_size, is_due, by_age, write_rows,
  dispatch_event, dispatch_rows, dispatch_once, envelope_of,
}
use fraud_latch.Dispatcher.Rows.{
  dispatch_event-Settled, dispatch_event-sent, dispatch_event-sent_stays,
}
use fraud_latch.Worker.Durability.{status-cases}

module _ {ℓ} (P : OutboxEvent → Type ℓ) where
  found :
      (x r : OutboxEvent)
      → P x
      → (b : Bool) (o : Option OutboxEvent) → (o ≡ some r → P r)
      → (if b then some x else o) ≡ some r
      → P r
  found x r p true o h e = subst P (cc e) p
  found x r p false o h e = h e

  found-insert :
      (x : OutboxEvent) (table : Assoc OutboxEvent)
      → P x
      → ((k : String) (r : OutboxEvent) → lookup k table ≡ some r → P r)
      → (k : String) (r : OutboxEvent) → lookup k (insert x.event_id x table) ≡ some r
      → P r
  found-insert x table p h k r e =
      found x r p (str_eq x.event_id k) (lookup k table) (h k r)
        (sym (lookup-insert x.event_id k x table) ∙ e)

  -- What holds of the rows written and of those in the table holds of those in the written table.
  lookup-write_rows :
      (rows : List OutboxEvent) (table : Assoc OutboxEvent)
      → All P rows
      → ((k : String) (r : OutboxEvent) → lookup k table ≡ some r → P r)
      → (k : String) (r : OutboxEvent) → lookup k (write_rows rows table) ≡ some r
      → P r
  unfolding write_rows
  lookup-write_rows [] table a h k r e = h k r e
  lookup-write_rows (x ∷ rows) table a h k r e =
      lookup-write_rows rows (insert x.event_id x table) a.1 (found-insert x table a.0 h) k r e

module _ {Q : Type 0} (queue : QueuePort Q) (readers : Readers) (now : Datetime) where
  open queue use {sent}

  -- A row that says that it is published is in the broker.
  abbrev pub Told : Q → OutboxEvent → Type 0
  Told q r = r.status ≡ published → sent q (envelope_of readers r) ≡ true

  rows-sent_stays :
      (rows : List OutboxEvent) (q : Q) (x : EventEnvelope)
      → sent q x ≡ true
      → sent (dispatch_rows queue readers rows now q).2 x ≡ true
  unfolding dispatch_rows
  rows-sent_stays [] q x h = h
  rows-sent_stays (r ∷ rest) q x h =
      rows-sent_stays rest (dispatch_event queue readers r now q).1 x
        (dispatch_event-sent_stays queue readers r now q x h)

  dispatch_rows-Told :
      (rows : List OutboxEvent) (q : Q)
      → All
          (Told (dispatch_rows queue readers rows now q).2)
          (dispatch_rows queue readers rows now q).0
  unfolding dispatch_rows
  dispatch_rows-Told [] q = tt
  dispatch_rows-Told (r ∷ rest) q = (
    λ p. rw (dispatch_event-Settled queue readers r now q).1 (
        rows-sent_stays rest (dispatch_event queue readers r now q).1 (envelope_of readers r)
          (dispatch_event-sent queue readers r now q p)),
    dispatch_rows-Told rest (dispatch_event queue readers r now q).1,
  )

module _ {S Q : Type 0} (session : OutboxSession S) (queue : QueuePort Q) (readers : Readers) where
  open session use {
    outbox, unlocked, execute, commit, execute-ok, outbox-execute, outbox-commit, outbox-commit_any,
  }
  open queue use {sent}

  -- Every committed row that says that it is published has its event in the broker.
  abbrev pub IsDelivered : World S Q → Type 0
  IsDelivered w =
      (k : String) (r : OutboxEvent)
      → lookup k (outbox w.db) ≡ some r
      → r.status ≡ published
      → sent w.broker (envelope_of readers r) ≡ true

  -- The rows that a round selects: pending and due, not locked by others, the oldest first, at most a hundred.
  abbrev pub selected : Datetime → S → List OutboxEvent
  selected now s = take batch_size (by_age (keep (is_due now) (unlocked s)))

  module _ (now : Datetime) (w : World S Q) where
    abbrev after : World S Q
    after = (dispatch_once session queue readers now w).1

    round_parts :
        {n : ℕ} (rows : List OutboxEvent)
        → (execute (is_due now) batch_size w.db).0 ≡ ok rows
        → (dispatch_once session queue readers now w).0 ≡ ok n
        → let (rows', calls, q) = dispatch_rows queue readers rows now w.broker in
          (n ≡ length rows)
          × (outbox after.db ≡ write_rows rows' (outbox w.db))
          × (after.broker ≡ q)
          × (after.metrics ≡ (w.metrics ++ pending_rows n ∷ []) ++ calls)
    unfolding dispatch_once
    round_parts rows eq h = ground (
      arith,
      eq,
      outbox-execute (is_due now) batch_size w.db,
      outbox-commit (dispatch_rows queue readers rows now w.broker).0
          (execute (is_due now) batch_size w.db).1,
    )

    executed :
        {n : ℕ}
        → (dispatch_once session queue readers now w).0 ≡ ok n
        → (execute (is_due now) batch_size w.db).0 ≡ ok (selected now w.db)
    unfolding dispatch_once
    executed h = elim (status-cases (execute (is_due now) batch_size w.db).0) [
      | inl (e, eq) ↦ absurd (ground (arith, eq))
      | inr (rows, eq) ↦ eq ∙ ap ok (execute-ok (is_due now) batch_size rows w.db eq)
    ]

    pub round_written :
        {n : ℕ}
        → (dispatch_once session queue readers now w).0 ≡ ok n
        → (n ≡ length (selected now w.db))
          × (outbox after.db
              ≡ write_rows
                  (dispatch_rows queue readers (selected now w.db) now w.broker).0
                  (outbox w.db))
    round_written h =
        let parts = round_parts (selected now w.db) (executed h) h in (parts.0, parts.1)

    -- What a round whose query returned leaves, however its commit ends.
    broker_after :
        (rows : List OutboxEvent)
        → (execute (is_due now) batch_size w.db).0 ≡ ok rows
        → after.broker ≡ (dispatch_rows queue readers rows now w.broker).2
    unfolding dispatch_once
    broker_after rows eq = ground (arith, eq)

    outbox_after :
        (rows : List OutboxEvent)
        → (execute (is_due now) batch_size w.db).0 ≡ ok rows
        → (outbox after.db ≡ outbox w.db)
          ⊎ (outbox after.db
              ≡ write_rows (dispatch_rows queue readers rows now w.broker).0 (outbox w.db))
    unfolding dispatch_once
    outbox_after rows eq = ground (
      arith,
      eq,
      outbox-execute (is_due now) batch_size w.db,
      outbox-commit_any (dispatch_rows queue readers rows now w.broker).0
          (execute (is_due now) batch_size w.db).1,
    )

    -- What a round whose query raised leaves.
    unexecuted :
        (e : Error)
        → (execute (is_due now) batch_size w.db).0 ≡ raised e
        → (after.broker ≡ w.broker) × (outbox after.db ≡ outbox w.db)
    unfolding dispatch_once
    unexecuted e eq = ground (arith, eq, outbox-execute (is_due now) batch_size w.db)

    written :
        IsDelivered w
        → (rows : List OutboxEvent) → (execute (is_due now) batch_size w.db).0 ≡ ok rows
        → (k : String) (r : OutboxEvent) → lookup k (outbox after.db) ≡ some r
        → Told queue readers now after.broker r
    written h rows eq k r e =
        let (rows', calls, q) = dispatch_rows queue readers rows now w.broker in
        let kept =
          λ (j : String) (s : OutboxEvent) (f : lookup j (outbox w.db) ≡ some s)
              (p : s.status ≡ published).
            rows-sent_stays queue readers now rows w.broker (envelope_of readers s) (h j s f p) in
        rw (broker_after rows eq) (elim (outbox_after rows eq) [
          | inl same ↦ kept k r (sym (ap (lookup k) same) ∙ e)
          | inr new ↦
              lookup-write_rows (Told queue readers now q) rows' (outbox w.db)
                (dispatch_rows-Told queue readers now rows w.broker) kept k r
                (sym (ap (lookup k) new) ∙ e)
        ])

    -- A round, however it ends, keeps it that every committed row that says that it is published has its event in the broker.
    pub dispatch_once-IsDelivered :
        IsDelivered w
        → (k : String) (r : OutboxEvent) → lookup k (outbox after.db) ≡ some r
        → r.status ≡ published
        → sent after.broker (envelope_of readers r) ≡ true
    dispatch_once-IsDelivered h k r e p =
        elim (status-cases (execute (is_due now) batch_size w.db).0) [
          | inl (e', eq) ↦
              let same = unexecuted e' eq in rw same.0 (h k r (sym (ap (lookup k) same.1) ∙ e) p)
          | inr (rows, eq) ↦ written h rows eq k r e p
        ]
