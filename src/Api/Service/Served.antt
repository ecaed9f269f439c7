-- ===== src/Api/Service/Served.antt =====
-- What the API has done after any requests and other clients' commits, one after the other.
use fraud_latch.Base.{ℕ, ◌+◌, ◌≡◌, refl, sym, inl, inr, String, some, [], arith}
use mathlib.Core.Path.{subst}
use fraud_latch.Worker.Durability.{status-cases}
use fraud_latch.Base.Assoc.{lookup}
use fraud_latch.Db.{Transaction, Tables}
use fraud_latch.Api.Repository.{TransactionIn}
use fraud_latch.Api.Routes.{post_transaction, with_session}
use fraud_latch.Api.Ingest.{post_transaction_keeps}
use fraud_latch.Api.Atomicity.{AllAnnounced, IsAnnounced, post_transaction-AllAnnounced}
use fraud_latch.Api.Service.{SessionFactory, App, in_session, ready, post}

module _ {S : Type 0} (factory : SessionFactory S) where
  open factory use {
    session, open_session, close, select_one, written-open_session, committed-open_session,
    committed-close, committed-select_one,
  }
  open session use {committed, Moves, lookup-Moves}

  abbrev pub tables_of : App S → Tables
  tables_of app = committed app.database

  -- `Served app n app'`: from app, n POST requests, any number of checks of readiness and any commits of other clients lead to app'.
  pub data Served (start : App S) : ℕ → App S → Type 0 where
    idle : Served start 0 start
    posted :
        {n : ℕ} {app : App S}
        → Served start n app
        → (event_id : String) (created_at : ℕ) (payload : TransactionIn)
        → Served start (n + 1) (post factory event_id created_at payload app).1
    checked : {n : ℕ} {app : App S} → Served start n app → Served start n (ready factory app).1
    moved :
        {n : ℕ} {app : App S}
        → Served start n app
        → (s : S) → Moves (committed app.database) (committed s)
        → Served start n (record app { database = s })

  -- Every POST is counted once.
  received_lem :
      {start app : App S} {n : ℕ}
      → Served start n app
      → app.observability.received ≡ start.observability.received + n
  unfolding post ready in_session
  received_lem idle = omega arith
  received_lem (posted r event_id created_at payload) = omega (arith, received_lem r)
  received_lem (checked r) = received_lem r
  received_lem (moved r s m) = received_lem r

  ready_database :
      (app : App S)
      → (ready factory app).1.database ≡ (close (select_one (open_session app.database)).1).1
  unfolding ready in_session with_session
  ready_database app = elim (status-cases (select_one (open_session app.database)).0) [
    | inl (e, eq) ↦ rw eq refl
    | inr (u, eq) ↦ rw eq refl
  ]

  -- What holds of the tables after each kind of step holds after all of them.
  module _ (P : Tables → Type 0) (stable : (a b : Tables) → Moves a b → P a → P b)
      (handled : (event_id : String) (created_at : ℕ) (payload : TransactionIn) (s : S)
        → session.written s ≡ []
        → P (committed s)
        → P (committed (post_transaction session event_id created_at payload s).1)) where
    opened : (s : S) → P (committed s) → P (committed (open_session s))
    opened s = stable _ _ (committed-open_session s)

    posted_keeps :
        (event_id : String) (created_at : ℕ) (payload : TransactionIn) (app : App S)
        → P (tables_of app)
        → P (tables_of (post factory event_id created_at payload app).1)
    unfolding post in_session post_transaction
    posted_keeps event_id created_at payload app h =
        let s = open_session app.database in
        stable _ _ (committed-close _) (
          handled event_id created_at payload s (written-open_session app.database)
            (opened app.database h))

    Served_lem :
        {start app : App S} {n : ℕ} → Served start n app → P (tables_of start) → P (tables_of app)
    Served_lem idle h = h
    Served_lem (posted {n} {app} r event_id created_at payload) h =
        posted_keeps event_id created_at payload app (Served_lem r h)
    Served_lem (checked {n} {app} r) h =
        subst (λ s. P (committed s)) (sym (ready_database app))
          (stable _ _ (committed-close _)
            (stable _ _ (committed-select_one _) (opened app.database (Served_lem r h))))
    Served_lem (moved r s m) h = stable _ _ m (Served_lem r h)

  -- From an application whose every committed transaction has an event in the outbox, where the commits of other clients keep it so:
  -- after any requests, checks and commits of others, every committed transaction has one, and the counter of received requests
  -- has counted each POST once.
  pub Served-IsAnnounced :
      ((a b : Tables)
        → Moves a b
        → AllAnnounced session.model_dump a
        → AllAnnounced session.model_dump b)
      → (start app : App S) (n : ℕ) → Served start n app
      → AllAnnounced session.model_dump (tables_of start)
      → (id : String) (t : Transaction) → lookup id (tables_of app).transactions ≡ some t
      → IsAnnounced session.model_dump (tables_of app) id t
        × (app.observability.received ≡ start.observability.received + n)
  Served-IsAnnounced stable start app n r h id t found = (
    Served_lem (AllAnnounced session.model_dump) stable
        (λ event_id created_at p s.
          post_transaction-AllAnnounced session event_id created_at stable p s)
        r h id t found,
    received_lem r,
  )

  -- A transaction that is committed stays as it is through any requests, checks and commits of others.
  pub Served-keeps :
      (id : String) (t : Transaction) (start app : App S) (n : ℕ)
      → Served start n app
      → lookup id (tables_of start).transactions ≡ some t
      → lookup id (tables_of app).transactions ≡ some t
  Served-keeps id t start app n r =
      Served_lem (λ ts. lookup id ts.transactions ≡ some t) (λ a b m. lookup-Moves m id)
        (λ event_id created_at p s w. post_transaction_keeps session event_id created_at id t p s) r
