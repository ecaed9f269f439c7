-- ===== src/Worker/Redelivery.antt =====
-- Redelivery, failure and the session's state in fraudlatch/worker.py: the early acknowledgement, the marker that a crash
-- leaves, the hand-over to the retry handler, and that each message starts from a committed session.
use fraud_latch.Base.{
  ℕ, ◌≡◌, ◌≢◌, String, refl, str_eq, Bool-cases, true, false, Option, none, some, ap, ◌∙◌, ◌⊎◌, inl,
  inr, arith, eq_refl, eq_iff,
}
use fraud_latch.Base.Outcome.{ok, raised, Error, succeeded}
use fraud_latch.Base.Action.{Action}
use fraud_latch.Contracts.Events.{EventEnvelope}
use fraud_latch.Db.{completed, processing}
use fraud_latch.Risk.Models.{RiskDecision}
use fraud_latch.Queue.Retry.{RetryDecision}
use fraud_latch.Queue.Ports.{QueueMessage, QueuePort}
use fraud_latch.Worker.{WorkerStore, World, persist, calculate_and_persist, attempt, fail, process}
use fraud_latch.Worker.Durability.{IsClean, status-cases, is_completed-eq, process-durable}

module _ {S Q : Type 0} (store : WorkerStore S) (queue : QueuePort Q)
    (risk_handler : EventEnvelope → Action Q (Option RiskDecision))
    (handle_failure : EventEnvelope → ℕ → Error → Action Q RetryDecision) (message : QueueMessage)
    (w : World S Q) where
  open store use {
    seen, durable, transaction_exists, assessment_status, mark_processing, commit, rollback,
    transaction_exists-same, assessment_status-ok, assessment_status-same, seen-mark_processing,
    durable-mark_processing, commit-ok, commit-any, rollback-ok, durable-rollback,
  }
  open queue use {ack}

  -- `process` returns false only after its work raised and the retry handler took that very error.
  pub process_failed :
      (process store queue risk_handler handle_failure message w).0 ≡ ok false
      → (e : Error) × ((attempt store queue risk_handler handle_failure message w).0 ≡ raised e)
        × (succeeded
              (handle_failure message.event message.attempts e
                (attempt store queue risk_handler handle_failure message w).1.broker).0
            ≡ true)
  unfolding process fail
  process_failed h =
      elim (status-cases (attempt store queue risk_handler handle_failure message w).0) [
        | inl (e, eq) ↦ (e, eq, ground (arith, eq))
        | inr (b, eq) ↦ absurd (ground (arith, eq))
      ]

  -- When the handler raises, the committed marker stays: the assessment is durably "processing" afterwards.
  pub process_marker :
      let id = message.event.aggregate_id in
      let s2 = (assessment_status id (transaction_exists id w.db).1).1 in
      let s3 = (mark_processing id message.attempts s2).1 in
      message.event.event_type ≡ "transaction.received"
      → (transaction_exists id w.db).0 ≡ ok true
      → succeeded (assessment_status id (transaction_exists id w.db).1).0 ≡ true
      → seen w.db id ≢ some completed
      → succeeded (mark_processing id message.attempts s2).0 ≡ true
      → succeeded (commit s3).0 ≡ true
      → succeeded (risk_handler message.event w.broker).0 ≡ false
      → durable (process store queue risk_handler handle_failure message w).1.db id
        ≡ some processing
  unfolding process attempt calculate_and_persist fail
  process_marker type exists read open_ marked committed crashed =
      let id = message.event.aggregate_id in
      let s1 = (transaction_exists id w.db).1 in
      let s2 = (assessment_status id s1).1 in
      let s3 = (mark_processing id message.attempts s2).1 in
      elim (status-cases (assessment_status id s1).0) [
        | inl (e, eq) ↦ ground (arith, eq)
        | inr (o, eq) ↦ ground (
          arith,
          eq,
          assessment_status-ok id o s1 eq,
          transaction_exists-same id id w.db,
          is_completed-eq o,
          eq_iff message.event.event_type "transaction.received",
          seen-mark_processing id message.attempts s2 id,
          eq_refl id,
          commit-ok s3 id,
          durable-rollback (commit s3).1 id,
        )
      ]

  calculate-clean :
      (v : World S Q) (j : String)
      → succeeded (calculate_and_persist store queue risk_handler handle_failure message v).0 ≡ true
      → let s = (calculate_and_persist store queue risk_handler handle_failure message v).1.db in
        seen s j ≡ durable s j
  unfolding calculate_and_persist
  calculate-clean v j h =
      let s2 = (commit (mark_processing message.event.aggregate_id message.attempts v.db).1).1 in
      elim (status-cases (risk_handler message.event v.broker).0) [
        | inl (e, eq) ↦ ground (arith, eq)
        | inr (d, eq) ↦ ground (arith, eq, commit-ok (persist store message d s2).1 j)
      ]

  attempt-clean :
      IsClean store w.db
      → (j : String)
      → succeeded (attempt store queue risk_handler handle_failure message w).0 ≡ true
      → let s = (attempt store queue risk_handler handle_failure message w).1.db in
        seen s j ≡ durable s j
  unfolding attempt
  attempt-clean clean j h =
      let id = message.event.aggregate_id in
      let s1 = (transaction_exists id w.db).1 in
      let w2 = record w { db = (assessment_status id s1).1 } in
      ground (
        arith,
        clean j,
        transaction_exists-same id j w.db,
        assessment_status-same id j s1,
        calculate-clean w2 j,
      )

  fail-clean :
      (e : Error) (v : World S Q) (j : String)
      → succeeded (fail store queue risk_handler handle_failure message e v).0 ≡ true
      → let s = (fail store queue risk_handler handle_failure message e v).1.db in
        seen s j ≡ durable s j
  unfolding fail
  fail-clean e v j h = ground (arith, rollback-ok v.db j, durable-rollback v.db j)

  -- From a session with nothing uncommitted, a `process` that returns leaves such a session.
  pub process-IsClean :
      IsClean store w.db
      → succeeded (process store queue risk_handler handle_failure message w).0 ≡ true
      → IsClean store (process store queue risk_handler handle_failure message w).1.db
  unfolding process
  process-IsClean clean h j =
      let v = (attempt store queue risk_handler handle_failure message w).1 in
      elim (status-cases (attempt store queue risk_handler handle_failure message w).0) [
        | inl (e, eq) ↦ ground (arith, eq, fail-clean e v j)
        | inr (b, eq) ↦ ground (arith, eq, attempt-clean clean j)
      ]

-- A session with nothing uncommitted, in which the assessment of the message's transaction is completed.
module _ {S Q : Type 0} (store : WorkerStore S) (queue : QueuePort Q)
    (handle_failure : EventEnvelope → ℕ → Error → Action Q RetryDecision) (message : QueueMessage)
    (w : World S Q) (clean : IsClean store w.db)
    (done : store.durable w.db message.event.aggregate_id ≡ some completed) where
  open store use {
    durable, transaction_exists, assessment_status, transaction_exists-same, assessment_status-ok,
    assessment_status-same, durable-rollback,
  }

  settled_cases :
      let s1 = (transaction_exists message.event.aggregate_id w.db).1 in
      ((e : Error) × ((assessment_status message.event.aggregate_id s1).0 ≡ raised e))
      ⊎ ((assessment_status message.event.aggregate_id s1).0 ≡ ok (some completed))
  settled_cases =
      let id = message.event.aggregate_id in
      let s1 = (transaction_exists id w.db).1 in
      elim (status-cases (assessment_status id s1).0) [
        | inl h ↦ inl h
        | inr (o, eq) ↦ inr (
            eq
            ∙ ap ok (
                assessment_status-ok id o s1 eq
                ∙ ((transaction_exists-same id id w.db).0 ∙ (clean id ∙ done))))
      ]

  module _ (risk_handler : EventEnvelope → Action Q (Option RiskDecision)) where
    attempt-settled :
        (j : String)
        → durable (attempt store queue risk_handler handle_failure message w).1.db j
          ≡ durable w.db j
    unfolding attempt
    attempt-settled j =
        let id = message.event.aggregate_id in
        let s1 = (transaction_exists id w.db).1 in
        elim settled_cases [
          | inl (e, eq) ↦
              ground (arith, eq, transaction_exists-same id j w.db, assessment_status-same id j s1)
          | inr eq ↦
              ground (arith, eq, transaction_exists-same id j w.db, assessment_status-same id j s1)
        ]

    process-settled :
        (j : String)
        → durable (process store queue risk_handler handle_failure message w).1.db j
          ≡ durable w.db j
    unfolding process fail
    process-settled j =
        let v = (attempt store queue risk_handler handle_failure message w).1 in
        elim (status-cases (attempt store queue risk_handler handle_failure message w).0) [
          | inl (e, eq) ↦ ground (arith, eq, attempt-settled j, durable-rollback v.db j)
          | inr (b, eq) ↦ ground (arith, eq, attempt-settled j)
        ]

    module _ (other : EventEnvelope → Action Q (Option RiskDecision)) where
      attempt_unasked :
          attempt store queue risk_handler handle_failure message w
          ≡ attempt store queue other handle_failure message w
      unfolding attempt
      attempt_unasked =
          let id = message.event.aggregate_id in
          elim (Bool-cases (str_eq message.event.event_type "transaction.received")) [
            | inr t ↦ rw t refl
            | inl t ↦ elim (status-cases (transaction_exists id w.db).0) [
              | inl (e, x) ↦ rw t (rw x refl)
              | inr (b, x) ↦ elim (Bool-cases b) [
                | inr f ↦ rw t (rw x (rw f refl))
                | inl f ↦ elim settled_cases [
                  | inl (e, eq) ↦ rw t (rw x (rw f (rw eq refl)))
                  | inr eq ↦ rw t (rw x (rw f (rw eq refl)))
                ]
              ]
            ]
          ]

      process_unasked :
          process store queue risk_handler handle_failure message w
          ≡ process store queue other handle_failure message w
      unfolding process fail
      process_unasked = rw attempt_unasked refl

module _ {S Q : Type 0} (store : WorkerStore S) (queue : QueuePort Q)
    (risk_handler : EventEnvelope → Action Q (Option RiskDecision))
    (handle_failure : EventEnvelope → ℕ → Error → Action Q RetryDecision) (message : QueueMessage)
    (w : World S Q) where
  -- Once `process` has returned true for a message, from a session with nothing uncommitted and with a handler that always decides: a
  -- later `process` of any message about the same transaction, with the broker in any state and however it ends, changes the durable
  -- status of no transaction, and does not depend on the risk handler, as it never calls it.
  pub process_redelivered :
      ((e : EventEnvelope) (q : Q) → (risk_handler e q).0 ≢ ok none)
      → IsClean store w.db
      → (process store queue risk_handler handle_failure message w).0 ≡ ok true
      → (again : QueueMessage) (q : Q) → again.event.aggregate_id ≡ message.event.aggregate_id
      → (later other : EventEnvelope → Action Q (Option RiskDecision))
      → let db = (process store queue risk_handler handle_failure message w).1.db in
        let v : World S Q = record { db = db; broker = q } in
        ((j : String)
          → store.durable (process store queue later handle_failure again v).1.db j
            ≡ store.durable db j)
        × (process store queue later handle_failure again v
            ≡ process store queue other handle_failure again v)
  process_redelivered decides clean returned again q same later other =
      let db = (process store queue risk_handler handle_failure message w).1.db in
      let v : World S Q = record { db = db; broker = q } in
      let kept =
        process-IsClean store queue risk_handler handle_failure message w clean
          (ap succeeded returned) in
      let done =
        ap (store.durable db) same
        ∙ process-durable store queue risk_handler handle_failure decides message w clean
            returned in
      (
        process-settled store queue handle_failure again v kept done later,
        process_unasked store queue handle_failure again v kept done later other,
      )
