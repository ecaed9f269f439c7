-- ===== src/Worker/Loop/Safety.antt =====
-- What a whole run of WorkerLoop (fraudlatch/worker.py) guarantees of the assessments and of the messages that it acknowledges.
use fraud_latch.Base.{
  ℕ, ◌≡◌, ◌≢◌, sym, ◌∙◌, ap, String, Bool, true, Option, none, some, List, inl, inr, arith, All,
  All-given, Bool-cases, str_eq, eq_iff,
}
use fraud_latch.Base.Outcome.{ok, Error}
use fraud_latch.Base.Action.{Action}
use fraud_latch.Contracts.Events.{EventEnvelope}
use fraud_latch.Db.{completed}
use fraud_latch.Risk.Models.{RiskDecision}
use fraud_latch.Queue.Retry.{RetryDecision}
use fraud_latch.Queue.Ports.{QueueMessage, QueuePort}
use fraud_latch.Worker.{
  WorkerStore, World, calculate_and_persist, attempt, fail, process, failure_reason,
}
use fraud_latch.Worker.Durability.{IsClean, status-cases, process-acked}
use fraud_latch.Worker.Lifecycle.{Reach, here, Reach-trans, Reach-completed, process-Reach}
use fraud_latch.Worker.Loop.{run}
use fraud_latch.Worker.Loop.Delivery.{run-Keeps}

module _ {S Q : Type 0} (store : WorkerStore S) (queue : QueuePort Q)
    (risk_handler : EventEnvelope → Action Q (Option RiskDecision))
    (handle_failure : EventEnvelope → ℕ → Error → Action Q RetryDecision)
    (is_set : World S Q → Bool) (consumer : String) where
  open store use {durable}
  open queue use {acked, ack, nack, acked-ack_ne, acked-nack, acked-consume}

  -- However a run of any length ends, from a session with nothing uncommitted: the durable status of every transaction has only taken steps of
  -- the specification, from any that is not completed to processing, and from processing to completed; none leads to failed.
  pub run-Reach :
      (w : World S Q)
      → IsClean store w.db
      → (turns : ℕ) (j : String)
      → Reach
          (durable w.db j)
          (durable (run store queue risk_handler handle_failure is_set consumer turns w).1.db j)
  run-Reach w clean turns j =
      (run-Keeps store queue risk_handler handle_failure is_set consumer (λ m. Unit {0})
        (λ v. Reach (durable w.db j) (durable v.db j)) (λ v r. r) (λ v ms e. All-given ms (λ x. tt))
        (λ m v g c r. Reach-trans r (process-Reach store queue risk_handler handle_failure m v c j))
        turns w (clean, here)).0

  module _ (decides : (e : EventEnvelope) (q : Q) → (risk_handler e q).0 ≢ ok none)
      (handler_acks : (e : EventEnvelope) (q : Q) (id : String)
        → acked (risk_handler e q).1 id ≡ acked q id)
      (failure_acks : (e : EventEnvelope) (n : ℕ) (x : Error) (q : Q) (id : String)
        → acked (handle_failure e n x q).1 id ≡ acked q id) where
    attempt-acked_ne :
        (x : QueueMessage) (w : World S Q) (m : String)
        → m ≢ x.handle.message_id
        → acked (attempt store queue risk_handler handle_failure x w).1.broker m ≡ acked w.broker m
    unfolding attempt calculate_and_persist
    attempt-acked_ne x w m ne =
        ground (arith, handler_acks x.event w.broker m, acked-ack_ne x.handle w.broker m ne)

    process-acked_ne :
        (x : QueueMessage) (w : World S Q) (m : String)
        → m ≢ x.handle.message_id
        → acked (process store queue risk_handler handle_failure x w).1.broker m ≡ acked w.broker m
    unfolding process fail
    process-acked_ne x w m ne =
        let v = (attempt store queue risk_handler handle_failure x w).1 in
        elim (status-cases (attempt store queue risk_handler handle_failure x w).0) [
          | inl (e, eq) ↦ ground (
            arith,
            eq,
            attempt-acked_ne x w m ne,
            failure_acks x.event x.attempts e v.broker m,
            acked-nack x.handle (failure_reason e) (handle_failure x.event x.attempts e v.broker).1
                m,
          )
          | inr (b, eq) ↦
              ground (arith, eq, attempt-acked_ne x w m ne, acked-ack_ne x.handle v.broker m ne)
        ]

    -- `subject` is the transaction that a message is about.
    module _ (subject : String → String)
        (about : (w : World S Q) (ms : List QueueMessage)
          → (queue.consume consumer 1 (some 500) w.broker).0 ≡ ok ms
          → All (λ x. subject x.handle.message_id ≡ x.event.aggregate_id) ms) where
      abbrev IsDone : String → World S Q → Type 0
      IsDone m w = acked w.broker m ≡ true → durable w.db (subject m) ≡ some completed

      process-IsDone :
          (m : String) (x : QueueMessage) (w : World S Q)
          → subject x.handle.message_id ≡ x.event.aggregate_id
          → IsClean store w.db
          → IsDone m w
          → IsDone m (process store queue risk_handler handle_failure x w).1
      process-IsDone m x w same clean h done =
          let stays =
            λ (e : acked (process store queue risk_handler handle_failure x w).1.broker m
                ≡ acked w.broker m).
              Reach-completed (h (sym e ∙ done))
                (process-Reach store queue risk_handler handle_failure x w clean (subject m)) in
          elim (Bool-cases (str_eq m x.handle.message_id)) [
            | inl t ↦
                elim (process-acked store queue risk_handler handle_failure decides handler_acks
                  failure_acks x w clean m) [
                    | inl e ↦ stays e
                    | inr d ↦
                        ap (durable (process store queue risk_handler handle_failure x w).1.db)
                          (ap subject ((eq_iff m x.handle.message_id).0 t) ∙ same)
                        ∙ d
                  ]
            | inr f ↦
                stays
                  (process-acked_ne x w m (λ e. ground (arith, f, eq_iff m x.handle.message_id, e)))
          ]

      -- However a run of any length ends, from a session with nothing uncommitted: if before it every acknowledged message has a durably completed
      -- transaction, so it is after it. A handler always decides, it and the retry handler acknowledge nothing, and the
      -- queue delivers with a message's identifier always the same transaction.
      pub run-acked :
          (w : World S Q)
          → IsClean store w.db
          → ((m : String) → acked w.broker m ≡ true → durable w.db (subject m) ≡ some completed)
          → (turns : ℕ) (m : String)
          → acked (run store queue risk_handler handle_failure is_set consumer turns w).1.broker m
            ≡ true
          → durable
              (run store queue risk_handler handle_failure is_set consumer turns w).1.db
              (subject m)
            ≡ some completed
      run-acked w clean h turns m =
          (run-Keeps store queue risk_handler handle_failure is_set consumer
            (λ x. subject x.handle.message_id ≡ x.event.aggregate_id) (IsDone m)
            (λ v k d. k (sym (acked-consume consumer 1 (some 500) v.broker m) ∙ d)) about
            (λ x v g c k. process-IsDone m x v g c k) turns w (clean, h m)).0
