-- ===== src/Dispatcher/Progress.antt =====
-- Progress of the dispatcher (fraudlatch/dispatcher.py): a selected row is committed as published if the calls that it takes return.
use fraud_latch.Base.{
  ℕ, ◌≡◌, ◌≢◌, refl, ap, sym, ◌∙◌, inl, inr, String, true, some, List, [], ◌∷◌, arith, All, eq_iff,
}
use mathlib.Core.Path.{subst}
use fraud_latch.Base.Assoc.{Assoc, lookup, insert, lookup-insert, lookup-insert_self}
use fraud_latch.Base.Sorting.{Contains}
use fraud_latch.Base.Time.{Datetime}
use fraud_latch.Base.Outcome.{Outcome, ok, raised, succeeded}
use fraud_latch.Contracts.Events.{EventEnvelope, envelope, payload_holds, validate_payload}
use fraud_latch.Db.{OutboxEvent, published}
use fraud_latch.Queue.Ports.{QueuePort, MessageHandle}
use fraud_latch.Dispatcher.{
  Readers, OutboxSession, World, dispatch_event, dispatch_rows, dispatch_once, publish_row,
  write_rows, counted, settle, envelope_of,
}
use fraud_latch.Dispatcher.Rows.{event_id-settle}
use fraud_latch.Dispatcher.Rounds.{selected, round_written}

-- The rows have different keys, and none of them has a key.
abbrev pub Lacks : String → List OutboxEvent → Type 0
Lacks k rows = All (λ r. r.event_id ≢ k) rows

abbrev pub HasDistinctIds : List OutboxEvent → Type 0
HasDistinctIds [] = Unit
HasDistinctIds (r ∷ rest) = Lacks r.event_id rest × HasDistinctIds rest

lookup-write_rows_ne :
    (k : String) (rows : List OutboxEvent) (table : Assoc OutboxEvent)
    → Lacks k rows
    → lookup k (write_rows rows table) ≡ lookup k table
unfolding write_rows
lookup-write_rows_ne k [] table h = refl
lookup-write_rows_ne k (r ∷ rows) table h =
    lookup-write_rows_ne k rows (insert r.event_id r table) h.1
    ∙ ground (arith, h.0, lookup-insert r.event_id k r table, eq_iff r.event_id k)

written_first :
    (x : OutboxEvent) (rows : List OutboxEvent) (table : Assoc OutboxEvent) (k : String)
    → x.event_id ≡ k
    → Lacks k rows
    → lookup k (write_rows (x ∷ rows) table) ≡ some x
unfolding write_rows
written_first x rows table k e h =
    lookup-write_rows_ne k rows (insert x.event_id x table) h
    ∙ (ap (λ j. lookup j (insert x.event_id x table)) (sym e)
        ∙ lookup-insert_self x.event_id x table)

-- The row meets what the dispatcher validates.
abbrev pub IsPublishable : Readers → OutboxEvent → Type 0
IsPublishable readers r =
    (readers.is_uuid r.event_id ≡ true)
    × (readers.is_readable r.payload ≡ true)
    × (payload_holds (readers.fields r.payload) ≡ true)
    × (envelope (envelope_of readers r) ≡ ok (envelope_of readers r))

module _ {Q : Type 0} (queue : QueuePort Q) (readers : Readers) (now : Datetime)
    (accepts : (e : EventEnvelope) (q : Q) → succeeded (queue.publish e q).0 ≡ true) where
  publish_row-succeeded :
      (r : OutboxEvent) (q : Q)
      → IsPublishable readers r
      → succeeded (publish_row queue readers r q).0 ≡ true
  unfolding publish_row validate_payload
  publish_row-succeeded r q h = ground (arith, h, accepts (envelope_of readers r) q)

  event_id-dispatch_event :
      (r : OutboxEvent) (q : Q) → (dispatch_event queue readers r now q).0.0.event_id ≡ r.event_id
  unfolding dispatch_event
  event_id-dispatch_event r q =
      event_id-settle (counted r) now (publish_row queue readers (counted r) q).0

  settle-published :
      (r : OutboxEvent) (o : Outcome MessageHandle)
      → succeeded o ≡ true
      → (settle r now o).0.status ≡ published
  unfolding settle
  settle-published r (ok a) h = refl
  settle-published r (raised e) h = absurd (ground (arith, h))

  status-dispatch_event :
      (r : OutboxEvent) (q : Q)
      → IsPublishable readers r
      → (dispatch_event queue readers r now q).0.0.status ≡ published
  unfolding dispatch_event
  status-dispatch_event r q h =
      settle-published (counted r) (publish_row queue readers (counted r) q).0
        (publish_row-succeeded (counted r) q h)

  dispatch_rows-Lacks :
      (k : String) (rows : List OutboxEvent) (q : Q)
      → Lacks k rows
      → Lacks k (dispatch_rows queue readers rows now q).0
  unfolding dispatch_rows
  dispatch_rows-Lacks k [] q h = tt
  dispatch_rows-Lacks k (r ∷ rest) q h = (
    λ e. h.0 (sym (event_id-dispatch_event r q) ∙ e),
    dispatch_rows-Lacks k rest (dispatch_event queue readers r now q).1 h.1,
  )

  -- The row under a key, published.
  abbrev pub IsPublishedIn : Assoc OutboxEvent → String → Type 0
  IsPublishedIn table k =
      (row : OutboxEvent) × (lookup k table ≡ some row) × (row.status ≡ published)

  rows_written :
      (rows : List OutboxEvent) (q : Q) (table : Assoc OutboxEvent) (r : OutboxEvent)
      → HasDistinctIds rows
      → Contains r rows
      → IsPublishable readers r
      → IsPublishedIn (write_rows (dispatch_rows queue readers rows now q).0 table) r.event_id
  unfolding dispatch_rows write_rows
  rows_written [] q table r d c p = absurd c
  rows_written (x ∷ rest) q table r d (inr c) p =
      let ((x', calls), q') = dispatch_event queue readers x now q in
      rows_written rest q' (insert x'.event_id x' table) r d.1 c p
  rows_written (x ∷ rest) q table r d (inl c) p =
      let ((x', calls), q') = dispatch_event queue readers x now q in
      let id = event_id-dispatch_event x q in
      (
        x',
        written_first x' (dispatch_rows queue readers rest now q').0 table r.event_id
            (id ∙ ap (λ y. y.event_id) (sym c))
            (dispatch_rows-Lacks r.event_id rest q'
              (subst (λ y. Lacks y.event_id rest) (sym c) d.0)),
        status-dispatch_event x q (subst (IsPublishable readers) c p),
      )

module _ {S Q : Type 0} (session : OutboxSession S) (queue : QueuePort Q) (readers : Readers)
    (now : Datetime) (w : World S Q) where
  -- If the queue accepts every publication and a round returns, each of the rows that it has selected, of different keys, is committed
  -- as published if it meets the dispatcher's validation.
  pub dispatch_once_publishes :
      ((e : EventEnvelope) (q : Q) → succeeded (queue.publish e q).0 ≡ true)
      → {n : ℕ} → (dispatch_once session queue readers now w).0 ≡ ok n
      → HasDistinctIds (selected session queue readers now w.db)
      → (r : OutboxEvent) → Contains r (selected session queue readers now w.db)
      → IsPublishable readers r
      → (row : OutboxEvent) × (lookup r.event_id
            (session.outbox (dispatch_once session queue readers now w).1.db)
          ≡ some row)
        × (row.status ≡ published)
  dispatch_once_publishes accepts h d r c p =
      subst (λ table. IsPublishedIn queue readers now accepts table r.event_id)
        (sym ((round_written session queue readers now w h).1))
        (rows_written queue readers now accepts (selected session queue readers now w.db) w.broker
          (session.outbox w.db) r d c p)
