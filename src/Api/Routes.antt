-- ===== src/Api/Routes.antt =====
-- fraudlatch/api/routes.py: `ingest_transaction` and the request-scoped session around it; the counter of received requests is in Service.
use fraud_latch.Base.{ℕ, String, Bool, true, false, Option, none, some, if◌then◌else◌}
use fraud_latch.Base.Outcome.{Error, integrity, other}
use fraud_latch.Base.Action.{Action, pure, raise, try_except, ◌>>=◌, ◌>>◌}
use fraud_latch.Db.{Transaction, add_transaction, add_outbox_event}
use fraud_latch.Api.Repository.{TransactionIn, matches_payload, new_outbox_event, RequestSession}

-- The `status` of TransactionAccepted.
pub data Accepted : Type 0 where
  accepted already_accepted : Accepted

-- `HTTPException(status_code=409, detail="transaction ID conflict")`
abbrev pub conflict : Error
conflict = record { kind = other; message = "409: transaction ID conflict" }

abbrev pub is_integrity_error : Error → Bool
is_integrity_error e = elim e.kind [ integrity ↦ true | _ ↦ false ]

module _ {S : Type 0} (session : RequestSession S) where
  -- `get_session`: an error rolls the session back and is raised on.
  unfoldable pub with_session : {A : Type 0} → Action S A → Action S A
  with_session request = try_except request (λ error. session.rollback >> raise error) pure

-- `event_id` and `created_at` are the values that the outbox row receives.
module _ {S : Type 0} (session : RequestSession S) (event_id : String) (created_at : ℕ) where
  open session use {get_transaction, flush, commit, rollback}

  -- `create_transaction`, `create_outbox_event` and the commit
  unfoldable pub create : TransactionIn → Action S (Unit {0})
  create payload = do
    flush (add_transaction payload)
    flush (add_outbox_event (new_outbox_event session.model_dump event_id created_at payload))
    commit

  -- `existing` is the row that a retry finds.
  unfoldable pub compare : TransactionIn → Transaction → Action S Accepted
  compare payload existing =
      if matches_payload existing payload then pure already_accepted else raise conflict

  -- What the handler of IntegrityError makes of the row that it finds.
  abbrev pub after_race : TransactionIn → Option Transaction → Action S Accepted
  after_race payload none = raise conflict
  after_race payload (some existing) = compare payload existing

  -- The `except IntegrityError` block; another error is raised on.
  unfoldable pub recover : TransactionIn → Error → Action S Accepted
  unfolding compare
  recover payload error =
      if is_integrity_error error
      then (do
        rollback
        existing ← get_transaction payload.transaction_id
        after_race payload existing)
      else raise error

  -- The branch on the row that the first query finds.
  unfoldable pub accept : TransactionIn → Option Transaction → Action S Accepted
  unfolding create compare recover
  accept payload (some existing) = compare payload existing
  accept payload none = try_except (create payload) (recover payload) (λ _. pure accepted)

  unfoldable pub ingest_transaction : TransactionIn → Action S Accepted
  unfolding accept
  ingest_transaction payload = do
    existing ← get_transaction payload.transaction_id
    accept payload existing

  -- A request, from its fresh session to its answer.
  unfoldable pub post_transaction : TransactionIn → Action S Accepted
  unfolding with_session ingest_transaction
  post_transaction payload = with_session session (ingest_transaction payload)
