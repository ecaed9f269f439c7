-- ===== src/Db/Models.antt =====
-- The tables that fraudlatch/db/models declare to SQLAlchemy, and what the declarations say of a table in the database.
use fraud_latch.Base.{String, Bool, true, false, Option, none, some, List, [], ◌∷◌, ◌++◌, map, keep}
use fraud_latch.Db.Schema.{
  ColumnType, varchar, numeric, integer, jsonb, timestamp, unbounded_text, Column, Constraint,
  primary_key, foreign_key, unique, Table, Index,
}

-- `mapped_column(...)`; `references` is the target of a ForeignKey with its `ondelete`.
pub record MappedColumn : Type 0 where
  pub column : Column
  pub is_primary_key : Bool
  pub references : Option (String × String)

-- A class over Base, with `__tablename__` and `__table_args__`
pub record Model : Type 0 where
  pub tablename : String
  pub indexes : List (String × List String)
  pub unique_constraints : List (String × List String)
  pub columns : List MappedColumn

abbrev mapped : String → ColumnType → MappedColumn
mapped name type = record {
  column = record { name = name; column_type = type; nullable = false; server_default = none };
  is_primary_key = false;
  references = none;
}

abbrev mapped_or_null : String → ColumnType → MappedColumn
mapped_or_null name type = record {
  column = record { name = name; column_type = type; nullable = true; server_default = none };
  is_primary_key = false;
  references = none;
}

-- `server_default=func.now()`
abbrev by_server : String → MappedColumn
by_server name = record {
  column = record {
    name = name;
    column_type = timestamp;
    nullable = false;
    server_default = some "now()";
  };
  is_primary_key = false;
  references = none;
}

abbrev as_primary_key : MappedColumn → MappedColumn
as_primary_key c = record c { is_primary_key = true }

-- `ForeignKey("transactions.transaction_id", ondelete="CASCADE")`
abbrev of_transaction : MappedColumn → MappedColumn
of_transaction c = record c { references = some ("transactions.transaction_id", "CASCADE") }

abbrev pub transaction : Model
transaction = record {
  tablename = "transactions";
  indexes =
      ("ix_transactions_customer_event_time", "customer_id" ∷ "event_time" ∷ [])
      ∷ ("ix_transactions_merchant_event_time", "merchant_id" ∷ "event_time" ∷ [])
      ∷ [];
  unique_constraints = [];
  columns =
      as_primary_key (mapped "transaction_id" (varchar 128))
      ∷ mapped "customer_id" (varchar 128)
      ∷ mapped "merchant_id" (varchar 128)
      ∷ mapped "category" (varchar 128)
      ∷ mapped "amount" (numeric 18 2)
      ∷ mapped "source_step" integer
      ∷ mapped "source" (varchar 64)
      ∷ mapped_or_null "source_metadata" jsonb
      ∷ mapped "event_time" timestamp
      ∷ by_server "created_at"
      ∷ [];
}

abbrev pub risk_assessment : Model
risk_assessment = record {
  tablename = "risk_assessments";
  indexes = [];
  unique_constraints = [];
  columns =
      as_primary_key (of_transaction (mapped "transaction_id" (varchar 128)))
      ∷ mapped "status" (varchar 16)
      ∷ mapped_or_null "score" (numeric 5 4)
      ∷ mapped_or_null "level" (varchar 16)
      ∷ mapped_or_null "reasons" jsonb
      ∷ mapped_or_null "engine_version" (varchar 64)
      ∷ mapped "attempts" integer
      ∷ mapped_or_null "error_code" (varchar 128)
      ∷ by_server "created_at"
      ∷ by_server "updated_at"
      ∷ [];
}

abbrev pub processing_event : Model
processing_event = record {
  tablename = "processing_events";
  indexes = ("ix_processing_events_transaction_created", "transaction_id" ∷ "created_at" ∷ []) ∷ [];
  unique_constraints = [];
  columns =
      as_primary_key (mapped "event_id" (varchar 128))
      ∷ of_transaction (mapped "transaction_id" (varchar 128))
      ∷ mapped "event_type" (varchar 128)
      ∷ mapped "attempt" integer
      ∷ mapped "status" (varchar 16)
      ∷ mapped_or_null "error_code" (varchar 128)
      ∷ mapped_or_null "detail" unbounded_text
      ∷ by_server "created_at"
      ∷ [];
}

abbrev pub outbox_event : Model
outbox_event = record {
  tablename = "outbox_events";
  indexes = ("ix_outbox_pending_next_attempt", "status" ∷ "next_attempt_at" ∷ []) ∷ [];
  unique_constraints =
      ("uq_outbox_aggregate_event_version", "aggregate_id" ∷ "event_type" ∷ "schema_version" ∷ [])
      ∷ [];
  columns =
      as_primary_key (mapped "event_id" (varchar 128))
      ∷ mapped "event_type" (varchar 128)
      ∷ mapped "schema_version" integer
      ∷ mapped "occurred_at" timestamp
      ∷ mapped "aggregate_id" (varchar 128)
      ∷ mapped "payload" jsonb
      ∷ mapped "status" (varchar 16)
      ∷ mapped "attempts" integer
      ∷ mapped_or_null "next_attempt_at" timestamp
      ∷ mapped_or_null "published_at" timestamp
      ∷ mapped_or_null "last_error" (varchar 512)
      ∷ by_server "created_at"
      ∷ [];
}

-- db/models/__init__.py
abbrev pub models : List Model
models = transaction ∷ risk_assessment ∷ processing_event ∷ outbox_event ∷ []

-- What SQLAlchemy makes of the declarations: the primary key of the columns that are marked, a foreign key of each column with a
-- target, and the unique constraints.
abbrev foreign_keys : List MappedColumn → List Constraint
foreign_keys [] = []
foreign_keys (c ∷ cs) = elim c.references [
  | none ↦ foreign_keys cs
  | some (target, ondelete) ↦
      foreign_key (c.column.name ∷ []) (target ∷ []) ondelete ∷ foreign_keys cs
]

abbrev pub constraints_of : Model → List Constraint
constraints_of m =
    primary_key (map (λ c. c.column.name) (keep (λ c. c.is_primary_key) m.columns))
      ∷ foreign_keys m.columns
    ++ map (λ (name, columns). unique columns name) m.unique_constraints

abbrev pub table_of : Model → Table
table_of m = record {
  name = m.tablename;
  columns = map (λ c. c.column) m.columns;
  constraints = constraints_of m;
}

abbrev pub indexes_of : Model → List Index
indexes_of m =
    map (λ (name, columns). record { name = name; table = m.tablename; columns = columns })
      m.indexes
