-- ===== src/Migrations/Env.antt =====
-- alembic/env.py: the URL, and the run of the migrations in one transaction of a connection.
pub mod Atomic
use fraud_latch.Base.{
  ◌≡◌, refl, sym, ◌∙◌, ap, ◌⊎◌, inl, inr, String, true, not, Option, List, [], ◌∷◌, All, str_eq,
  arith,
}
use text.Mathlib.Text.{starts_with}
use mathlib.Core.Path.{subst}
use fraud_latch.Base.Outcome.{Outcome, ok, Error, raise_if, other, succeeded, ◌>>◌ as ◌and_then◌}
use fraud_latch.Base.Action.{Action, pure, raise, lift, try_except, finally, for_each, ◌>>=◌, ◌>>◌}
use fraud_latch.Config.{Environment, setting}
use fraud_latch.Db.Schema.{Table, Index}
use fraud_latch.Migrations.{Op, Schema, Operations, migrate}

-- `get_url`
unfoldable pub get_url : (String → String) → Environment → Outcome String
get_url strip environ =
    let url = setting strip environ "DATABASE_URL" in
    raise_if (str_eq url "") other "DATABASE_URL must be set for Alembic"
    and_then raise_if (not (starts_with url "postgresql+asyncpg://")) other
        "DATABASE_URL must use the postgresql+asyncpg:// scheme"
    and_then ok url

-- What is used of Alembic and SQLAlchemy over PostgreSQL. `operations` act on what the transaction sees, and `durable` is what other
-- connections see: only a commit changes that, to what the transaction sees; one that raises may have done so or not.
pub record Connection (W : Type 0) : Type 0 where
  pub operations : Operations W
  pub durable : W → Schema
  pub connect : String → Action W (Unit {0})
  pub begin : Action W (Unit {0})
  pub commit : Action W (Unit {0})
  pub rollback : Action W (Unit {0})
  pub close : Action W (Unit {0})
  pub dispose : Action W (Unit {0})
  pub durable-perform : (op : Op) (w : W) → durable (operations.perform op w).1 ≡ durable w
  pub durable-connect : (url : String) (w : W) → durable (connect url w).1 ≡ durable w
  pub durable-begin : (w : W) → durable (begin w).1 ≡ durable w
  pub durable-rollback : (w : W) → durable (rollback w).1 ≡ durable w
  pub durable-close : (w : W) → durable (close w).1 ≡ durable w
  pub durable-dispose : (w : W) → durable (dispose w).1 ≡ durable w
  pub commit-any :
      (w : W)
      → (durable (commit w).1 ≡ durable w)
        ⊎ (durable (commit w).1 ≡ (operations.tables w, operations.indexes w))

module _ {W : Type 0} (connection : Connection W) (pending : List Op) where
  open connection use {operations, connect, begin, commit, rollback, close, dispose}

  -- `with context.begin_transaction(): context.run_migrations()`, where `pending` are the calls of the revisions to run
  unfoldable pub do_run_migrations : Action W (Unit {0})
  do_run_migrations = do
    begin
    try_except (migrate operations pending) (λ e. rollback >> raise e) (λ u. commit)

  unfoldable pub run_async_migrations : (String → String) → Environment → Action W (Unit {0})
  unfolding do_run_migrations
  run_async_migrations strip environ = do
    url ← lift (get_url strip environ)
    connect url
    finally do_run_migrations close
    dispose
