-- ===== src/Db/Rows.antt =====
-- The rows that fraudlatch/api/repository.py and risk_repository.py hand to SQLAlchemy, column by column. A column that a row does
-- not name is left to its default in the database.
use fraud_latch.Base.{String, Option, none, some, List, [], ◌∷◌}
use fraud_latch.Base.Int.{pos}
use fraud_latch.Base.Assoc.{Assoc}
use fraud_latch.Risk.Models.{RiskLevel, low, medium, high, RiskReason}
use fraud_latch.Db.{
  Transaction, Status, pending, processing, completed, failed, RiskAssessment, ProcessingEvent,
  OutboxStatus, waiting, published, failed_permanently, OutboxEvent,
}
use fraud_latch.Db.Schema.{Value, null, text, number, whole, json, instant}

abbrev or_null {ℓ} : {A : Type ℓ} → (A → Value) → Option A → Value
or_null f none = null
or_null f (some a) = f a

-- `Transaction(**transaction_values(payload))`. A JSONB column stores None as JSON's null.
abbrev pub transaction_row : Transaction → Assoc Value
transaction_row t =
    ("transaction_id", text t.transaction_id)
    ∷ ("customer_id", text t.customer_id)
    ∷ ("merchant_id", text t.merchant_id)
    ∷ ("category", text t.category)
    ∷ ("amount", number t.amount)
    ∷ ("source_step", whole t.source_step)
    ∷ ("source", text t.source)
    ∷ ("event_time", instant t.event_time)
    ∷ ("source_metadata", json)
    ∷ []

abbrev status_text : Status → String
status_text pending = "pending"
status_text processing = "processing"
status_text completed = "completed"
status_text failed = "failed"

abbrev pub level_text : RiskLevel → String
level_text low = "LOW"
level_text medium = "MEDIUM"
level_text high = "HIGH"

-- The columns of a RiskAssessment
abbrev pub assessment_row : RiskAssessment → Assoc Value
assessment_row a =
    ("transaction_id", text a.transaction_id)
    ∷ ("status", text (status_text a.status))
    ∷ ("score", or_null number a.score)
    ∷ ("level", or_null (λ l. text (level_text l)) a.level)
    ∷ ("reasons", or_null (λ (rs : List RiskReason). json) a.reasons)
    ∷ ("engine_version", or_null text a.engine_version)
    ∷ ("attempts", whole (pos a.attempts))
    ∷ ("error_code", or_null text a.error_code)
    ∷ []

-- The columns of a ProcessingEvent
abbrev pub processing_event_row : ProcessingEvent → Assoc Value
processing_event_row e =
    ("event_id", text e.event_id)
    ∷ ("transaction_id", text e.transaction_id)
    ∷ ("event_type", text e.event_type)
    ∷ ("attempt", whole (pos e.attempt))
    ∷ ("status", text (status_text e.status))
    ∷ ("error_code", or_null text e.error_code)
    ∷ []

abbrev outbox_status_text : OutboxStatus → String
outbox_status_text waiting = "pending"
outbox_status_text published = "published"
outbox_status_text failed_permanently = "failed"

-- The columns of an OutboxEvent
abbrev pub outbox_row : OutboxEvent → Assoc Value
outbox_row e =
    ("event_id", text e.event_id)
    ∷ ("event_type", text e.event_type)
    ∷ ("schema_version", whole e.schema_version)
    ∷ ("occurred_at", instant e.occurred_at)
    ∷ ("aggregate_id", text e.aggregate_id)
    ∷ ("payload", json)
    ∷ ("status", text (outbox_status_text e.status))
    ∷ ("attempts", whole (pos e.attempts))
    ∷ ("next_attempt_at", or_null instant e.next_attempt_at)
    ∷ ("published_at", or_null instant e.published_at)
    ∷ ("last_error", or_null text e.last_error)
    ∷ []
