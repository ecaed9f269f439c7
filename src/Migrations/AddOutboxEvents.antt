-- ===== src/Migrations/AddOutboxEvents.antt =====
-- alembic/versions/0002_add_outbox_events.py
use fraud_latch.Base.{List, [], ◌∷◌}
use fraud_latch.Db.Schema.{varchar, integer, jsonb, timestamp, primary_key, unique, Table}
use fraud_latch.Migrations.{
  Op, create_table, drop_index, drop_table, not_null, may_be_null, stamped, index_on,
}

abbrev pub outbox_events : Table
outbox_events = record {
  name = "outbox_events";
  columns =
      not_null "event_id" (varchar 128)
      ∷ not_null "event_type" (varchar 128)
      ∷ not_null "schema_version" integer
      ∷ not_null "occurred_at" timestamp
      ∷ not_null "aggregate_id" (varchar 128)
      ∷ not_null "payload" jsonb
      ∷ not_null "status" (varchar 16)
      ∷ not_null "attempts" integer
      ∷ may_be_null "next_attempt_at" timestamp
      ∷ may_be_null "published_at" timestamp
      ∷ may_be_null "last_error" (varchar 512)
      ∷ stamped "created_at"
      ∷ [];
  constraints =
      primary_key ("event_id" ∷ [])
      ∷ unique ("aggregate_id" ∷ "event_type" ∷ "schema_version" ∷ [])
          "uq_outbox_aggregate_event_version"
      ∷ [];
}

abbrev pub upgrade : List Op
upgrade =
    create_table outbox_events
    ∷ index_on "ix_outbox_pending_next_attempt" "outbox_events" ("status" ∷ "next_attempt_at" ∷ [])
    ∷ []

abbrev pub downgrade : List Op
downgrade =
    drop_index "ix_outbox_pending_next_attempt" "outbox_events" ∷ drop_table "outbox_events" ∷ []
