-- ===== src/Migrations/InitialSchema.antt =====
-- alembic/versions/0001_initial_schema.py
use fraud_latch.Base.{List, [], ◌∷◌}
use fraud_latch.Db.Schema.{
  varchar, numeric, integer, jsonb, timestamp, unbounded_text, primary_key, foreign_key, check,
  Table,
}
use fraud_latch.Migrations.{
  Op, create_table, drop_index, drop_table, not_null, may_be_null, stamped, index_on,
}

abbrev pub transactions : Table
transactions = record {
  name = "transactions";
  columns =
      not_null "transaction_id" (varchar 128)
      ∷ not_null "customer_id" (varchar 128)
      ∷ not_null "merchant_id" (varchar 128)
      ∷ not_null "category" (varchar 128)
      ∷ not_null "amount" (numeric 18 2)
      ∷ not_null "source_step" integer
      ∷ not_null "source" (varchar 64)
      ∷ may_be_null "source_metadata" jsonb
      ∷ not_null "event_time" timestamp
      ∷ stamped "created_at"
      ∷ [];
  constraints = primary_key ("transaction_id" ∷ []) ∷ [];
}

abbrev pub risk_assessments : Table
risk_assessments = record {
  name = "risk_assessments";
  columns =
      not_null "transaction_id" (varchar 128)
      ∷ not_null "status" (varchar 16)
      ∷ may_be_null "score" (numeric 5 4)
      ∷ may_be_null "level" (varchar 16)
      ∷ may_be_null "reasons" jsonb
      ∷ may_be_null "engine_version" (varchar 64)
      ∷ not_null "attempts" integer
      ∷ may_be_null "error_code" (varchar 128)
      ∷ stamped "created_at"
      ∷ stamped "updated_at"
      ∷ [];
  constraints =
      check "status IN ('pending', 'processing', 'completed', 'failed')" "ck_risk_status"
      ∷ foreign_key ("transaction_id" ∷ []) ("transactions.transaction_id" ∷ []) "CASCADE"
      ∷ primary_key ("transaction_id" ∷ [])
      ∷ [];
}

abbrev pub processing_events : Table
processing_events = record {
  name = "processing_events";
  columns =
      not_null "event_id" (varchar 128)
      ∷ not_null "transaction_id" (varchar 128)
      ∷ not_null "event_type" (varchar 128)
      ∷ not_null "attempt" integer
      ∷ not_null "status" (varchar 16)
      ∷ may_be_null "error_code" (varchar 128)
      ∷ may_be_null "detail" unbounded_text
      ∷ stamped "created_at"
      ∷ [];
  constraints =
      foreign_key ("transaction_id" ∷ []) ("transactions.transaction_id" ∷ []) "CASCADE"
      ∷ primary_key ("event_id" ∷ [])
      ∷ [];
}

abbrev pub upgrade : List Op
upgrade =
    create_table transactions
    ∷ index_on "ix_transactions_customer_event_time" "transactions"
        ("customer_id" ∷ "event_time" ∷ [])
    ∷ index_on "ix_transactions_merchant_event_time" "transactions"
        ("merchant_id" ∷ "event_time" ∷ [])
    ∷ create_table risk_assessments
    ∷ create_table processing_events
    ∷ index_on "ix_processing_events_transaction_created" "processing_events"
        ("transaction_id" ∷ "created_at" ∷ [])
    ∷ []

abbrev pub downgrade : List Op
downgrade =
    drop_index "ix_processing_events_transaction_created" "processing_events"
    ∷ drop_table "processing_events"
    ∷ drop_table "risk_assessments"
    ∷ drop_index "ix_transactions_merchant_event_time" "transactions"
    ∷ drop_index "ix_transactions_customer_event_time" "transactions"
    ∷ drop_table "transactions"
    ∷ []
