-- ===== src/Db.antt =====
-- fraudlatch/db/models: the rows of the four tables, the writes that the program makes to them, and the session
-- through which it makes them. The `created_at` and `updated_at` columns, which the server fills in, are left out.
pub mod Schema
pub mod Models
pub mod Rows
use fraud_latch.Base.{ℕ, ◌≡◌, String, true, Option, none, some, List, [], ◌∷◌, ◌⊎◌}
use fraud_latch.Base.Int.{ℤ}
use fraud_latch.Base.Decimal.{Decimal}
use fraud_latch.Base.Time.{Datetime}
use fraud_latch.Base.Assoc.{Assoc, lookup, insert}
use fraud_latch.Base.Outcome.{ok, succeeded}
use fraud_latch.Base.Action.{Action}
use fraud_latch.Contracts.Transaction.{TransactionFields}
use fraud_latch.Risk.Models.{RiskLevel, RiskReason}

-- `Transaction`
abbrev pub Transaction : Type 0
Transaction = TransactionFields

-- The values that the check constraint `ck_risk_status` allows.
pub data Status : Type 0 where
  pending processing completed failed : Status

-- `RiskAssessment`
pub record RiskAssessment : Type 0 where
  pub transaction_id : String
  pub status : Status
  pub score : Option Decimal
  pub level : Option RiskLevel
  pub reasons : Option (List RiskReason)
  pub engine_version : Option String
  pub attempts : ℕ
  pub error_code : Option String

-- `RiskAssessment(transaction_id=...)` with the column defaults
abbrev pub new_assessment : String → RiskAssessment
new_assessment id = record {
  transaction_id = id;
  status = pending;
  score = none;
  level = none;
  reasons = none;
  engine_version = none;
  attempts = 0;
  error_code = none;
}

-- `ProcessingEvent`
pub record ProcessingEvent : Type 0 where
  pub event_id : String
  pub transaction_id : String
  pub event_type : String
  pub attempt : ℕ
  pub status : Status
  pub error_code : Option String

pub data OutboxStatus : Type 0 where
  waiting published failed_permanently : OutboxStatus

-- The text of a JSONB value.
abbrev pub StoredJson : Type 0
StoredJson = String

-- `OutboxEvent`; `waiting` is the status "pending", `failed_permanently` the status "failed".
pub record OutboxEvent : Type 0 where
  pub event_id : String
  pub event_type : String
  pub schema_version : ℤ
  pub occurred_at : Datetime
  pub aggregate_id : String
  pub payload : StoredJson
  pub status : OutboxStatus
  pub attempts : ℕ
  pub next_attempt_at : Option Datetime
  pub published_at : Option Datetime
  pub last_error : Option String
  pub created_at : ℕ

-- The tables, each row under its primary key.
pub record Tables : Type 0 where
  pub transactions : Assoc Transaction
  pub assessments : Assoc RiskAssessment
  pub processing_events : Assoc ProcessingEvent
  pub outbox : Assoc OutboxEvent

-- What the program adds to a session, or changes on an object that the session holds, before a flush.
pub data Change : Type 0 where
  put_assessment : RiskAssessment → Change
  add_processing_event : ProcessingEvent → Change
  add_transaction : Transaction → Change
  add_outbox_event : OutboxEvent → Change

-- The tables after a flushed change.
unfoldable pub apply : Tables → Change → Tables
apply t (put_assessment r) = record t { assessments = insert r.transaction_id r t.assessments }
apply t (add_processing_event r) = record t {
  processing_events = insert r.event_id r t.processing_events;
}
apply t (add_transaction r) = record t { transactions = insert r.transaction_id r t.transactions }
apply t (add_outbox_event r) = record t { outbox = insert r.event_id r t.outbox }

unfoldable pub apply_all : Tables → List Change → Tables
apply_all t [] = t
apply_all t (c ∷ cs) = apply_all (apply t c) cs

-- What the worker uses of SQLAlchemy's AsyncSession over PostgreSQL. `visible` is what the session reads, its
-- own flushed writes included, and `committed` is what is durable. Any call may raise; `flush` writes the changes
-- made since the last flush. A commit that raises may still have taken effect.
pub record Session (S : Type 0) : Type 0 where
  pub visible : S → Tables
  pub committed : S → Tables
  pub get_transaction : String → Action S (Option Transaction)
  pub get_assessment : String → Action S (Option RiskAssessment)
  pub flush : List Change → Action S (Unit {0})
  pub commit : Action S (Unit {0})
  pub rollback : Action S (Unit {0})
  pub get_transaction-ok :
      (id : String) (o : Option Transaction) (s : S)
      → (get_transaction id s).0 ≡ ok o
      → o ≡ lookup id (visible s).transactions
  pub get_transaction-same :
      (id : String) (s : S)
      → (visible (get_transaction id s).1 ≡ visible s)
        × (committed (get_transaction id s).1 ≡ committed s)
  pub get_assessment-ok :
      (id : String) (o : Option RiskAssessment) (s : S)
      → (get_assessment id s).0 ≡ ok o
      → o ≡ lookup id (visible s).assessments
  pub get_assessment-key :
      (id : String) (a : RiskAssessment) (s : S)
      → (get_assessment id s).0 ≡ ok (some a)
      → a.transaction_id ≡ id
  pub get_assessment-same :
      (id : String) (s : S)
      → (visible (get_assessment id s).1 ≡ visible s)
        × (committed (get_assessment id s).1 ≡ committed s)
  pub visible-flush :
      (cs : List Change) (s : S)
      → succeeded (flush cs s).0 ≡ true
      → visible (flush cs s).1 ≡ apply_all (visible s) cs
  pub committed-flush : (cs : List Change) (s : S) → committed (flush cs s).1 ≡ committed s
  pub commit-ok :
      (s : S)
      → succeeded (commit s).0 ≡ true
      → (committed (commit s).1 ≡ visible s) × (visible (commit s).1 ≡ visible s)
  pub commit-any :
      (s : S) → (committed (commit s).1 ≡ committed s) ⊎ (committed (commit s).1 ≡ visible s)
  pub rollback-ok : (s : S) → succeeded (rollback s).0 ≡ true → visible (rollback s).1 ≡ committed s
  pub committed-rollback : (s : S) → committed (rollback s).1 ≡ committed s
