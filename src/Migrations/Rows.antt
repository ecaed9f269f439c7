-- ===== src/Migrations/Rows.antt =====
-- Whether the rows that the program writes are rows of the tables that the migrations make.
use Prim.Native.String.{count, ◌++◌ as ◌^^◌}
use fraud_latch.Base.{
  ℕ, ◌+◌, ◌≡◌, ◌%◌, ◌≤◌, refl, String, true, some, leb, arith, Option, or_default, inl, inr,
  Bool-cases,
}
use fraud_latch.Base.Int.{pos, abs, ◌≤ℤ◌}
use fraud_latch.Base.Decimal.{Decimal, one, has_digits}
use fraud_latch.Base.Assoc.{lookup}
use fraud_latch.Base.Outcome.{Outcome, ok, raised}
use fraud_latch.Contracts.Transaction.{text_within}
use fraud_latch.Db.Schema.{is_int32, fits, column_fits, row_fits}
use fraud_latch.Db.Rows.{transaction_row, level_text, outbox_row, assessment_row}
use fraud_latch.Base.Time.{Datetime}
use fraud_latch.Base.Text.{count-prefix-le}
use fraud_latch.Queue.Ports.{MessageHandle}
use fraud_latch.Queue.Retry.{classify_processing_error}
use fraud_latch.Dispatcher.{settle, counted, mark_published, mark_failed}
use fraud_latch.Risk.Models.{
  RiskLevel, low, medium, high, RiskTransaction, RiskContext, RiskDecision,
}
use fraud_latch.Risk.Config.{RulesConfig}
use fraud_latch.Risk.Engine.{assess}
use fraud_latch.Risk.Engine.Score.{assess_score}
use fraud_latch.Db.{OutboxEvent, StoredJson, RiskAssessment, new_assessment}
use fraud_latch.Api.RiskRepository.{with_result, with_failure}
use fraud_latch.Api.Repository.{TransactionIn, body_holds, transaction_in, new_outbox_event}
use fraud_latch.Migrations.InitialSchema
use fraud_latch.Migrations.AddOutboxEvents

transaction_in-holds :
    (t accepted : TransactionIn) → transaction_in t ≡ ok accepted → body_holds accepted ≡ true
unfolding transaction_in
transaction_in-holds t accepted h = elim (Bool-cases (body_holds t)) [
  | inl e ↦ ground (arith, e, h)
  | inr e ↦ absurd (ground (arith, e, h))
]

-- If TransactionIn accepts a transaction, its row is within the types of the columns exactly if its step is an integer of 32 bits; the row of its
-- event is in any case, for an identifier of at most 128 characters.
pub row_fits-transaction_in :
    (t accepted : TransactionIn) (model_dump : TransactionIn → StoredJson) (event_id : String)
    (created_at : ℕ)
    → transaction_in t ≡ ok accepted
    → count event_id ≤ 128
    → (row_fits InitialSchema.transactions.columns (transaction_row accepted)
        ≡ is_int32 accepted.source_step)
      × (row_fits AddOutboxEvents.outbox_events.columns
            (outbox_row (new_outbox_event model_dump event_id created_at accepted))
          ≡ true)
unfolding body_holds text_within row_fits column_fits fits lookup
row_fits-transaction_in t accepted model_dump event_id created_at h n =
    let v = transaction_in-holds t accepted h in (ground (arith, v), ground (arith, v, n))

share-has_digits :
    (d : Decimal) → pos 0 ≤ℤ d → d ≤ℤ one → abs d % 10000 ≡ 0 → has_digits 10000 1000000000 d ≡ true
share-has_digits d a b e = ground (arith, a, b, e)

level_within : (l : RiskLevel) → leb (count (level_text l)) 16 ≡ true
level_within low = refl
level_within medium = refl
level_within high = refl

-- A decision that the engine returns makes a row that is within the types of the table of assessments, whatever the row was before, and a
-- failure keeps a row so, where the identifier and the error's code have at most 128 characters and the attempt is an integer of 32 bits.
pub row_fits-with_result :
    (t : RiskTransaction) (c : RiskContext) (g : RulesConfig) (d : RiskDecision)
    (found : Option RiskAssessment) (id code : String) (attempt : ℕ)
    → assess t (some c) (some g) ≡ ok d
    → count (or_default found (new_assessment id)).transaction_id ≤ 128
    → count code ≤ 128
    → is_int32 (pos attempt) ≡ true
    → (row_fits InitialSchema.risk_assessments.columns
          (assessment_row (with_result found id attempt d))
        ≡ true)
      × (row_fits InitialSchema.risk_assessments.columns
              (assessment_row (or_default found (new_assessment id)))
            ≡ true
          → row_fits InitialSchema.risk_assessments.columns
              (assessment_row (with_failure found id attempt code))
            ≡ true)
unfolding row_fits column_fits fits lookup with_result with_failure
row_fits-with_result t c g d found id code attempt returned n m k =
    let (a, b, e, f, l) = assess_score t c g returned in
    (
      ground (arith, n, k, share-has_digits d.risk_score a b e, level_within d.risk_level),
      λ h. ground (arith, h, n, m, k),
    )

-- A row within the types of the outbox's columns still is after an attempt, however the publication ended, if the number of attempts
-- stays an integer of 32 bits and the clock carries its offset.
pub row_fits-settle :
    (row : OutboxEvent) (now : Datetime) (published : Outcome MessageHandle)
    → row_fits AddOutboxEvents.outbox_events.columns (outbox_row row) ≡ true
    → is_int32 (pos (row.attempts + 1)) ≡ true
    → now.aware ≡ true
    → row_fits AddOutboxEvents.outbox_events.columns
        (outbox_row (settle (counted row) now published).0)
      ≡ true
unfolding row_fits column_fits fits lookup settle mark_published mark_failed
row_fits-settle row now (ok handle) h a b = ground (arith, h, a, b)
row_fits-settle row now (raised error) h a b =
    let m = count-prefix-le 512 ((classify_processing_error error).0 ^^ (": " ^^ error.message)) in
    elim (Bool-cases (classify_processing_error error).1) [
      | inl t ↦ rw t (ground (arith, h, a, b, m))
      | inr t ↦ rw t (ground (arith, h, a, b, m))
    ]
