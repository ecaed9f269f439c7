-- ===== src/Tests/EnvTests.antt =====
-- `alembic upgrade head` on an empty database in memory.
use fraud_latch.Base.{◌≡◌, ◌⊎◌, refl, inr, All, str_eq, none, some, if◌then◌else◌}
use fraud_latch.Base.Outcome.{ok}
use fraud_latch.Config.{Environment}
use fraud_latch.Db.Models.{models}
use fraud_latch.Migrations.{Schema, Operations}
use fraud_latch.Migrations.Roundtrip.{upgrades}
use fraud_latch.Migrations.Models.{Implements}
use fraud_latch.Migrations.Env.{Connection, run_async_migrations}
use fraud_latch.Migrations.Env.Atomic.{run_async_migrations-AllOrNone}
use fraud_latch.Tests.MigrationTests.{Tables, no_tables, in_memory}

-- What a transaction sees, and what is durable.
record Database : Type 0 where
  pub seen : Tables
  pub stored : Schema

abbrev operations : Operations Database
operations = record {
  tables = λ w. w.seen.tables;
  indexes = λ w. w.seen.indexes;
  perform = λ op w.
      ((in_memory.perform op w.seen).0, record w { seen = (in_memory.perform op w.seen).1 });
  indexed = λ w. in_memory.indexed w.seen;
  was_absent = λ t w. in_memory.was_absent t w.seen;
  index_was_absent = λ i w. in_memory.index_was_absent i w.seen;
  tables-perform = λ op w. in_memory.tables-perform op w.seen;
  indexes-perform = λ op w. in_memory.indexes-perform op w.seen;
}

abbrev connection : Connection Database
connection = record {
  operations = operations;
  durable = λ w. w.stored;
  connect = λ url w. (ok tt, w);
  begin = λ w. (ok tt, w);
  commit = λ w. (ok tt, record w { stored = (w.seen.tables, w.seen.indexes) });
  rollback = λ w. (ok tt, w);
  close = λ w. (ok tt, w);
  dispose = λ w. (ok tt, w);
  durable-perform = λ op w. refl;
  durable-connect = λ url w. refl;
  durable-begin = λ w. refl;
  durable-rollback = λ w. refl;
  durable-close = λ w. refl;
  durable-dispose = λ w. refl;
  commit-any = λ w. inr refl;
}

abbrev environ : Environment
environ name =
    if str_eq name "DATABASE_URL" then some "postgresql+asyncpg://db/fraudlatch" else none

abbrev fresh : Database
fresh = record { seen = no_tables; stored = (no_tables.tables, no_tables.indexes) }

run_async_migrations-AllOrNone_example :
    ((run_async_migrations connection upgrades (λ s. s) environ fresh).1.stored ≡ fresh.stored)
    ⊎ All
        (Implements (run_async_migrations connection upgrades (λ s. s) environ fresh).1.stored)
        models
run_async_migrations-AllOrNone_example =
    run_async_migrations-AllOrNone connection fresh.stored (λ s. s) environ fresh refl
