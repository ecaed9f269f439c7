-- ===== src/Api/Service.antt =====
-- fraudlatch/api/app.py and session_scope of fraudlatch/db/session.py, and of fraudlatch/api/routes.py: the session of a request with its closing, the counter of received
-- requests, and the health, metrics and readiness endpoints.
pub mod Served
pub mod Posted
use fraud_latch.Base.{ℕ, ◌≡◌, String, Option, none, some, []}
use fraud_latch.Base.Outcome.{Outcome, ok, ◌>>=◌ as ◌and_bind◌}
use fraud_latch.Base.Action.{Action, pure, lift, try_except, finally, ◌>>=◌}
use fraud_latch.Config.{Environment, get_database_url}
use fraud_latch.Observability.{Observability, new_observability, count_received, exposition}
use fraud_latch.Db.{Transaction}
use fraud_latch.Api.Queries.{query_transaction}
use fraud_latch.Api.Repository.{TransactionIn, RequestSession}
use fraud_latch.Api.Routes.{Accepted, ingest_transaction, with_session}

-- What `session_factory` gives: a fresh session, its closing, and `SELECT 1` on it. Other clients may commit meanwhile.
pub record SessionFactory (S : Type 0) : Type 1 where
  pub session : RequestSession S
  pub open_session : S → S
  pub close : Action S (Unit {0})
  pub select_one : Action S (Unit {0})
  pub written-open_session : (s : S) → session.written (open_session s) ≡ []
  pub committed-open_session :
      (s : S) → session.Moves (session.committed s) (session.committed (open_session s))
  pub committed-close :
      (s : S) → session.Moves (session.committed s) (session.committed (close s).1)
  pub committed-select_one :
      (s : S) → session.Moves (session.committed s) (session.committed (select_one s).1)

-- `app.state`, with the database behind the session factory, and the engine that the application owns, by its URL
pub record App (S : Type 0) : Type 0 where
  pub engine : Option String
  pub database : S
  pub observability : Observability

-- `create_app`, from the database of the session factory that it is given, or from that of a URL.
unfoldable pub create_app :
    {S : Type 0} → (String → String) → Environment → (String → S) → Option S → Outcome (App S)
create_app strip environ connect (some database) =
    ok (record { engine = none; database = database; observability = new_observability })
create_app strip environ connect none = get_database_url strip environ and_bind λ url.
    ok (record { engine = some url; database = connect url; observability = new_observability })

-- The end of `lifespan`.
abbrev pub shut_down : {S : Type 0} → Action S (Unit {0}) → Action (App S) (Unit {0})
shut_down dispose app = elim app.engine [
  | none ↦ pure tt app
  | some url ↦ ((dispose app.database).0, record app { database = (dispose app.database).1 })
]

module _ {S : Type 0} (factory : SessionFactory S) where
  open factory use {session, open_session, close, select_one}

  -- A handler in the session that `get_session` gives it.
  unfoldable pub in_session : {A : Type 0} → Action S A → Action (App S) A
  unfolding with_session
  in_session handler app =
      let s = open_session app.database in
      let block = finally (with_session session handler) close in
      ((block s).0, record app { database = (block s).1 })

  -- `session_scope` of db/session.py around its caller, on the database that its session factory connects to
  unfoldable pub session_scope :
      {A : Type 0} → (String → String) → Environment → Action S A → Action S A
  unfolding with_session
  session_scope strip environ caller s =
      (lift (get_database_url strip environ) >>= λ url t.
      finally (with_session session caller) close (open_session t))
        s

  abbrev pub health : Action (App S) String
  health = pure "ok"

  abbrev pub metrics : (Observability → String) → Action (App S) String
  metrics generate_latest app = (ok (exposition generate_latest app.observability), app)

  -- The status code and the status.
  unfoldable pub ready : Action (App S) (ℕ × String)
  unfolding in_session
  ready =
      in_session
        (try_except select_one (λ error. pure (503, "not_ready")) (λ u. pure (200, "ready")))

  -- POST /v1/transactions
  unfoldable pub post : String → ℕ → TransactionIn → Action (App S) Accepted
  unfolding in_session ingest_transaction
  post event_id created_at payload app =
      in_session (ingest_transaction session event_id created_at payload)
        (record app { observability = count_received app.observability })

  -- GET /v1/transactions/{transaction_id}
  unfoldable pub get : String → Action (App S) Transaction
  unfolding in_session query_transaction
  get transaction_id = in_session (query_transaction session transaction_id)
