-- ===== src/Api/Service/Posted.antt =====
-- A transaction that was posted is the one that is got.
use fraud_latch.Base.{ℕ, ◌≡◌, refl, ◌∙◌, inl, inr, ap, String, true, some, [], arith, Bool-cases}
use fraud_latch.Base.Outcome.{Outcome, ok, succeeded}
use fraud_latch.Base.Action.{after_cleanup}
use fraud_latch.Base.Leads.{finally-ok}
use fraud_latch.Base.Assoc.{lookup}
use fraud_latch.Db.{Transaction}
use fraud_latch.Worker.Durability.{status-cases}
use fraud_latch.Api.Repository.{TransactionIn, transaction_in, body_holds}
use fraud_latch.Api.Routes.{Accepted, accepted, already_accepted, post_transaction, with_session}
use fraud_latch.Api.Idempotency.{Says, post_transaction-Says}
use fraud_latch.Api.Queries.{query_transaction, transaction_response}
use fraud_latch.Api.Service.{SessionFactory, App, in_session, post, get}
use fraud_latch.Api.Service.Served.{tables_of, Served, Served-keeps}

module _ {S : Type 0} (factory : SessionFactory S) where
  open factory use {
    session, open_session, close, written-open_session, committed-open_session, committed-close,
  }
  open session use {
    committed, written, get_transaction, lookup-Moves, get_transaction-ok, get_transaction-same,
  }

  Says-stored :
      (event_id : String) (created_at : ℕ) (p : TransactionIn) (a : Accepted) (s : S)
      → Says session event_id created_at p a s
      → lookup p.transaction_id (committed s).transactions ≡ some p
  Says-stored event_id created_at p accepted s h = h.0
  Says-stored event_id created_at p already_accepted s h = h

  post-stored :
      (event_id : String) (created_at : ℕ) (p : TransactionIn) (app : App S) (a : Accepted)
      → (post factory event_id created_at p app).0 ≡ ok a
      → lookup p.transaction_id
          (tables_of factory (post factory event_id created_at p app).1).transactions
        ≡ some p
  unfolding post in_session post_transaction
  post-stored event_id created_at p app a h =
      let s = open_session app.database in
      lookup-Moves (committed-close _) p.transaction_id (
        Says-stored event_id created_at p a _ (
          post_transaction-Says session event_id created_at p s a
            (written-open_session app.database)
            (finally-ok (post_transaction session event_id created_at p) close s a h)))

  cleaned :
      (t : Transaction) (o : Outcome (Unit {0}))
      → succeeded o ≡ true
      → after_cleanup (ok t) o ≡ ok t
  cleaned t o h = ground (arith, h)

  -- What the query of a fresh session returns for a stored row.
  found :
      (id : String) (t : Transaction) (s : S)
      → written s ≡ []
      → lookup id (committed s).transactions ≡ some t
      → succeeded (get_transaction id s).0 ≡ true
      → (get_transaction id s).0 ≡ ok (some t)
  found id t s w h queried = elim (status-cases (get_transaction id s).0) [
    | inl (e, eq) ↦ absurd (ground (arith, eq, queried))
    | inr (o, eq) ↦
        eq
        ∙ ap ok (get_transaction-ok id o s w eq ∙ lookup-Moves (get_transaction-same id s).1 id h)
  ]

  query-returned :
      (p : TransactionIn) (s : S)
      → transaction_in p ≡ ok p
      → (get_transaction p.transaction_id s).0 ≡ ok (some p)
      → with_session session (query_transaction session p.transaction_id) s
        ≡ (ok p, (get_transaction p.transaction_id s).1)
  unfolding with_session query_transaction transaction_response transaction_in
  query-returned p s valid e = elim (Bool-cases (body_holds p)) [
    | inl t ↦ rw e (rw t refl)
    | inr t ↦ absurd (ground (arith, t, valid))
  ]

  -- A valid transaction whose POST was answered is what a GET of its identifier returns, whatever the API and other clients have done in
  -- between, if the query and the closing of the session return.
  pub post-get :
      (event_id : String) (created_at : ℕ) (p : TransactionIn) (start : App S) (a : Accepted)
      → transaction_in p ≡ ok p
      → (post factory event_id created_at p start).0 ≡ ok a
      → (n : ℕ) (app : App S) → Served factory (post factory event_id created_at p start).1 n app
      → succeeded (get_transaction p.transaction_id (open_session app.database)).0 ≡ true
      → succeeded (close (get_transaction p.transaction_id (open_session app.database)).1).0 ≡ true
      → (get factory p.transaction_id app).0 ≡ ok p
  unfolding get in_session
  post-get event_id created_at p start a valid answered n app served queried closed =
      let id = p.transaction_id in
      let s = open_session app.database in
      let kept =
        Served-keeps factory id p (post factory event_id created_at p start).1 app n served
          (post-stored event_id created_at p start a answered) in
      let stored = lookup-Moves (committed-open_session app.database) id kept in
      let e =
        query-returned p s valid
          (found id p s (written-open_session app.database) stored queried) in
      rw e (cleaned p _ closed)
