-- ===== src/Worker.antt =====
-- fraudlatch/worker.py: the store and queue that the worker needs, one message's processing, and the loop.
pub mod Durability
pub mod Redelivery
pub mod Lifecycle
pub mod Calculate
pub mod Loop
pub mod DatabaseStore
pub mod Main
use Prim.Native.String.{◌++◌}
use fraud_latch.Base.{
  ℕ, ◌≡◌, String, Bool, true, false, not, Option, none, some, List, [], ◌∷◌, ◌⊎◌, str_eq,
  if◌then◌else◌,
}
use fraud_latch.Base.Text.{str}
use fraud_latch.Base.Outcome.{Outcome, ok, raised, Error, permanent, succeeded}
use fraud_latch.Base.Action.{Action, pure, raise, ◌>>=◌, ◌>>◌, try_except}
use fraud_latch.Contracts.Events.{EventEnvelope}
use fraud_latch.Db.{Status, completed, processing}
use fraud_latch.Risk.Models.{RiskDecision}
use fraud_latch.Queue.Retry.{RetryDecision}
use fraud_latch.Queue.Ports.{MessageHandle, QueueMessage, QueuePort}

-- `WorkerStore`. `seen` is the status that the store reads for a transaction, `durable` the one that survives a
-- crash.
pub record WorkerStore (S : Type 0) : Type 0 where
  pub seen : S → String → Option Status
  pub durable : S → String → Option Status
  pub transaction_exists : String → Action S Bool
  pub assessment_status : String → Action S (Option Status)
  pub mark_processing : String → ℕ → Action S (Unit {0})
  pub commit : Action S (Unit {0})
  pub rollback : Action S (Unit {0})
  pub persist_decision : String → String → ℕ → RiskDecision → Action S (Unit {0})
  pub transaction_exists-same :
      (id j : String) (s : S)
      → (seen (transaction_exists id s).1 j ≡ seen s j)
        × (durable (transaction_exists id s).1 j ≡ durable s j)
  pub assessment_status-ok :
      (id : String) (o : Option Status) (s : S) → (assessment_status id s).0 ≡ ok o → o ≡ seen s id
  pub assessment_status-same :
      (id j : String) (s : S)
      → (seen (assessment_status id s).1 j ≡ seen s j)
        × (durable (assessment_status id s).1 j ≡ durable s j)
  pub seen-mark_processing :
      (id : String) (n : ℕ) (s : S) (j : String)
      → succeeded (mark_processing id n s).0 ≡ true
      → seen (mark_processing id n s).1 j ≡ (if str_eq id j then some processing else seen s j)
  pub durable-mark_processing :
      (id : String) (n : ℕ) (s : S) (j : String)
      → durable (mark_processing id n s).1 j ≡ durable s j
  pub seen-persist_decision :
      (id event : String) (n : ℕ) (d : RiskDecision) (s : S) (j : String)
      → succeeded (persist_decision id event n d s).0 ≡ true
      → seen (persist_decision id event n d s).1 j
        ≡ (if str_eq id j then some completed else seen s j)
  pub durable-persist_decision :
      (id event : String) (n : ℕ) (d : RiskDecision) (s : S) (j : String)
      → durable (persist_decision id event n d s).1 j ≡ durable s j
  pub commit-ok :
      (s : S) (j : String)
      → succeeded (commit s).0 ≡ true
      → (durable (commit s).1 j ≡ seen s j) × (seen (commit s).1 j ≡ seen s j)
  pub commit-any :
      (s : S) (j : String)
      → (durable (commit s).1 j ≡ durable s j) ⊎ (durable (commit s).1 j ≡ seen s j)
  pub rollback-ok :
      (s : S) (j : String) → succeeded (rollback s).0 ≡ true → seen (rollback s).1 j ≡ durable s j
  pub durable-rollback : (s : S) (j : String) → durable (rollback s).1 j ≡ durable s j

-- The worker's world: the database session and the broker.
pub record World (S Q : Type 0) : Type 0 where
  pub db : S
  pub broker : Q

module _ {S Q A : Type 0} where
  abbrev pub on_db : Action S A → Action (World S Q) A
  on_db m w = ((m w.db).0, record w { db = (m w.db).1 })

  abbrev pub on_broker : Action Q A → Action (World S Q) A
  on_broker m w = ((m w.broker).0, record w { broker = (m w.broker).1 })

-- `str(error) or "processing failure"`
abbrev pub failure_reason : Error → String
failure_reason e = if str_eq e.message "" then "processing failure" else e.message

-- `status == "completed"`
abbrev pub is_completed : Option Status → Bool
is_completed (some completed) = true
is_completed _ = false

-- `if decision is not None: await self.store.persist_decision(...)`
unfoldable pub persist :
    {S : Type 0} → WorkerStore S → QueueMessage → Option RiskDecision → Action S (Unit {0})
persist store message none = pure tt
persist store message (some decision) =
    store.persist_decision message.event.aggregate_id
      (message.event.event_id ++ (":" ++ str message.attempts)) message.attempts decision

module _ {S Q : Type 0} (store : WorkerStore S) (queue : QueuePort Q)
    (risk_handler : EventEnvelope → Action Q (Option RiskDecision))
    (handle_failure : EventEnvelope → ℕ → Error → Action Q RetryDecision) where
  open store use {transaction_exists, assessment_status, mark_processing, commit, rollback}
  open queue use {ack, nack}

  -- The part of the `try` block after the status test.
  unfoldable pub calculate_and_persist : QueueMessage → Action (World S Q) Bool
  unfolding persist
  calculate_and_persist message = do
    on_db (mark_processing message.event.aggregate_id message.attempts)
    on_db commit
    decision ← on_broker (risk_handler message.event)
    on_db (persist store message decision)
    on_db commit
    pure false

  -- The `try` block: whether it has acknowledged the message and returned.
  unfoldable pub attempt : QueueMessage → Action (World S Q) Bool
  unfolding calculate_and_persist
  attempt message =
      if not (str_eq message.event.event_type "transaction.received")
      then raise (record { kind = permanent; message = "unsupported worker event type" })
      else do
        exists ← on_db (transaction_exists message.event.aggregate_id)
        if not exists
            then raise (record { kind = permanent; message = "transaction not found" })
            else do
              status ← on_db (assessment_status message.event.aggregate_id)
              if is_completed status
                  then (on_broker (ack message.handle) >> pure true)
                  else calculate_and_persist message

  -- The `except` block.
  unfoldable pub fail : QueueMessage → Error → Action (World S Q) Bool
  fail message error = do
    on_db rollback
    on_broker (handle_failure message.event message.attempts error)
    on_broker (nack message.handle (failure_reason error))
    pure false

  -- `WorkerProcessor.process`
  unfoldable pub process : QueueMessage → Action (World S Q) Bool
  unfolding attempt fail
  process message = try_except (attempt message) (fail message) (λ acknowledged.
      if acknowledged then pure true else (on_broker (ack message.handle) >> pure true))
