-- ===== src/Migrations/Models.antt =====
-- The schema that the migrations of alembic/versions make, against the tables that fraudlatch/db/models declare.
use mathlib.Core.List.{Permᴰ, Perm}
use mathlib.Core.List.Permᴰ
use fraud_latch.Base.{◌≡◌, refl, Bool, true, false, Option, some, All, keep}
use fraud_latch.Base.Outcome.{succeeded}
use fraud_latch.Db.Schema.{Table, Constraint, check, primary_key, foreign_key, unique}
use fraud_latch.Db.Models.{Model, models, table_of, indexes_of}
use fraud_latch.Migrations.{Schema, Operations, migrate}
use fraud_latch.Migrations.InitialSchema
use fraud_latch.Migrations.AddOutboxEvents
use fraud_latch.Migrations.Roundtrip.{upgrades, tables-migrate, indexes-migrate}

abbrev pub is_key : Constraint → Bool
is_key (check condition name) = false
is_key (primary_key columns) = true
is_key (foreign_key columns targets ondelete) = true
is_key (unique columns name) = true

-- A table in the database with the columns of a model and, in any order, its keys. It may have checks besides.
abbrev pub IsTableOf : Option Table → Model → Type 0
IsTableOf o m =
    (t : Table) × (o ≡ some t)
    × (t.columns ≡ (table_of m).columns)
    × Perm (keep is_key t.constraints) (table_of m).constraints

-- A schema with the table and the indexes of a model.
abbrev pub Implements : Schema → Model → Type 0
Implements (tables, indexes) m =
    IsTableOf (tables m.tablename) m × All (λ i. indexes i.name ≡ some i) (indexes_of m)

module _ {W : Type 0} (operations : Operations W) where
  open operations use {tables, indexes}

  -- After upgrading by all migrations, if this returns, the database has the table of every model, with its columns in order and
  -- with its keys, and every index that the models declare.
  pub upgrades-Implements :
      (w : W)
      → succeeded (migrate operations upgrades w).0 ≡ true
      → All
          (Implements
            (tables (migrate operations upgrades w).1, indexes (migrate operations upgrades w).1))
          models
  upgrades-Implements w h =
      let t = tables-migrate operations upgrades w h in
      let i = indexes-migrate operations upgrades w h in
      (
        (
          (InitialSchema.transactions, t "transactions", refl, ∣ Permᴰ.refl _ ∣₁),
          (i "ix_transactions_customer_event_time", (i "ix_transactions_merchant_event_time", tt)),
        ),
        (
          (
            (InitialSchema.risk_assessments, t "risk_assessments", refl, ∣ Permᴰ.swap refl refl ∣₁),
            tt,
          ),
          (
            (
              (
                InitialSchema.processing_events,
                t "processing_events",
                refl,
                ∣ Permᴰ.swap refl refl ∣₁,
              ),
              (i "ix_processing_events_transaction_created", tt),
            ),
            (
              (
                (AddOutboxEvents.outbox_events, t "outbox_events", refl, ∣ Permᴰ.refl _ ∣₁),
                (i "ix_outbox_pending_next_attempt", tt),
              ),
              tt,
            ),
          ),
        ),
      )
