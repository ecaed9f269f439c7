-- ===== src/Worker/Durability.antt =====
-- Acknowledgement and durability in fraudlatch/worker.py: what has been committed when `process` returns or raises.
use fraud_latch.Base.{
  ℕ, ◌≡◌, ◌≢◌, refl, ◌∙◌, String, true, Option, none, some, ◌⊎◌, inl, inr, arith, eq_refl,
}
use fraud_latch.Base.Outcome.{Outcome, ok, raised, Error, succeeded}
use fraud_latch.Base.Action.{Action}
use fraud_latch.Contracts.Events.{EventEnvelope}
use fraud_latch.Db.{Status, completed}
use fraud_latch.Risk.Models.{RiskDecision}
use fraud_latch.Queue.Retry.{RetryDecision}
use fraud_latch.Queue.Ports.{QueueMessage, QueuePort}
use fraud_latch.Worker.{
  WorkerStore, World, persist, calculate_and_persist, attempt, fail, process, is_completed,
  failure_reason,
}

-- Nothing is written and not yet committed.
abbrev pub IsClean : {S : Type 0} → WorkerStore S → S → Type 0
IsClean {S} store s = (j : String) → store.seen s j ≡ store.durable s j

pub is_completed-eq : (o : Option Status) → is_completed o ≡ true → o ≡ some completed
is_completed-eq o h = ground arith

decision-cases :
    (o : Outcome (Option RiskDecision))
    → o ≢ ok none
    → ((e : Error) × (o ≡ raised e)) ⊎ ((d : RiskDecision) × (o ≡ ok (some d)))
decision-cases (raised e) h = inl (e, refl)
decision-cases (ok (some d)) h = inr (d, refl)
decision-cases (ok none) h = absurd (h refl)

pub status-cases :
    {A : Type 0} (o : Outcome A) → ((e : Error) × (o ≡ raised e)) ⊎ ((a : A) × (o ≡ ok a))
status-cases (raised e) = inl (e, refl)
status-cases (ok a) = inr (a, refl)

module _ {S : Type 0} (store : WorkerStore S) where
  open store use {seen, durable, seen-persist_decision, durable-persist_decision}

  persist-seen :
      (message : QueueMessage) (d : RiskDecision) (s : S)
      → succeeded (persist store message (some d) s).0 ≡ true
      → seen (persist store message (some d) s).1 message.event.aggregate_id ≡ some completed
  unfolding persist
  persist-seen message d s h = seen-persist_decision _ _ _ d s _ h ∙ (rw eq_refl)

  persist-durable :
      (message : QueueMessage) (o : Option RiskDecision) (s : S) (j : String)
      → durable (persist store message o s).1 j ≡ durable s j
  unfolding persist
  persist-durable message none s j = refl
  persist-durable message (some d) s j = durable-persist_decision _ _ _ d s j

module _ {S Q : Type 0} (store : WorkerStore S) (queue : QueuePort Q)
    (risk_handler : EventEnvelope → Action Q (Option RiskDecision))
    (handle_failure : EventEnvelope → ℕ → Error → Action Q RetryDecision) where
  open store use {
    seen, durable, transaction_exists, assessment_status, mark_processing, commit, rollback,
    transaction_exists-same, assessment_status-ok, assessment_status-same, seen-mark_processing,
    durable-mark_processing, commit-ok, commit-any, rollback-ok, durable-rollback,
  }
  open queue use {acked, acked-nack}

  calculate-durable :
      ((e : EventEnvelope) (q : Q) → (risk_handler e q).0 ≢ ok none)
      → (message : QueueMessage) (w : World S Q)
      → succeeded (calculate_and_persist store queue risk_handler handle_failure message w).0 ≡ true
      → durable
          (calculate_and_persist store queue risk_handler handle_failure message w).1.db
          message.event.aggregate_id
        ≡ some completed
  unfolding calculate_and_persist
  calculate-durable decides message w h =
      let id = message.event.aggregate_id in
      let s2 = (commit (mark_processing id message.attempts w.db).1).1 in
      elim (decision-cases (risk_handler message.event w.broker).0
        (decides message.event w.broker)) [
          | inl (e, eq) ↦ ground (arith, eq)
          | inr (d, eq) ↦ ground (
            arith,
            eq,
            persist-seen store message d s2,
            commit-ok (persist store message (some d) s2).1 id,
          )
        ]

  attempt-durable :
      ((e : EventEnvelope) (q : Q) → (risk_handler e q).0 ≢ ok none)
      → (message : QueueMessage) (w : World S Q) → IsClean store w.db
      → succeeded (attempt store queue risk_handler handle_failure message w).0 ≡ true
      → durable
          (attempt store queue risk_handler handle_failure message w).1.db
          message.event.aggregate_id
        ≡ some completed
  unfolding attempt
  attempt-durable decides message w clean h =
      let id = message.event.aggregate_id in
      let s1 = (transaction_exists id w.db).1 in
      let s2 = (assessment_status id s1).1 in
      let w2 = record w { db = s2 } in
      elim (status-cases (assessment_status id s1).0) [
        | inl (e, eq) ↦ ground (arith, eq)
        | inr (o, eq) ↦ ground (
          arith,
          eq,
          clean id,
          is_completed-eq o,
          assessment_status-ok id o s1 eq,
          transaction_exists-same id id w.db,
          assessment_status-same id id s1,
          calculate-durable decides message w2,
        )
      ]

  -- When `process` returns true, the assessment of the message's transaction is durably completed: nothing is
  -- acknowledged successfully before the commit. (The handler is one that always decides, as the worker's does.)
  pub process-durable :
      ((e : EventEnvelope) (q : Q) → (risk_handler e q).0 ≢ ok none)
      → (message : QueueMessage) (w : World S Q) → IsClean store w.db
      → (process store queue risk_handler handle_failure message w).0 ≡ ok true
      → durable
          (process store queue risk_handler handle_failure message w).1.db
          message.event.aggregate_id
        ≡ some completed
  unfolding process fail
  process-durable decides message w clean h =
      ground (arith, attempt-durable decides message w clean)

  module _ (decides : (e : EventEnvelope) (q : Q) → (risk_handler e q).0 ≢ ok none)
      (handler_acks : (e : EventEnvelope) (q : Q) (id : String)
        → acked (risk_handler e q).1 id ≡ acked q id)
      (failure_acks : (e : EventEnvelope) (n : ℕ) (x : Error) (q : Q) (id : String)
        → acked (handle_failure e n x q).1 id ≡ acked q id)
      (message : QueueMessage) (w : World S Q) (clean : IsClean store w.db) where
    calculate-acked :
        (v : World S Q) (m : String)
        → acked (calculate_and_persist store queue risk_handler handle_failure message v).1.broker m
          ≡ acked v.broker m
    unfolding calculate_and_persist
    calculate-acked v m = ground (arith, handler_acks message.event v.broker m)

    attempt-acked :
        (m : String)
        → (acked (attempt store queue risk_handler handle_failure message w).1.broker m
            ≡ acked w.broker m)
          ⊎ (durable
                (attempt store queue risk_handler handle_failure message w).1.db
                message.event.aggregate_id
              ≡ some completed)
    unfolding attempt
    attempt-acked m =
        let id = message.event.aggregate_id in
        let s1 = (transaction_exists id w.db).1 in
        let s2 = (assessment_status id s1).1 in
        let w2 = record w { db = s2 } in
        elim (status-cases (assessment_status id s1).0) [
          | inl (e, eq) ↦ ground (arith, eq)
          | inr (o, eq) ↦ ground (
            arith,
            eq,
            clean id,
            is_completed-eq o,
            assessment_status-ok id o s1 eq,
            transaction_exists-same id id w.db,
            assessment_status-same id id s1,
            calculate-acked w2 m,
          )
        ]

    fail-acked :
        (e : Error) (v : World S Q) (m : String)
        → (acked (fail store queue risk_handler handle_failure message e v).1.broker m
            ≡ acked v.broker m)
          × (durable
                (fail store queue risk_handler handle_failure message e v).1.db
                message.event.aggregate_id
              ≡ durable v.db message.event.aggregate_id)
    unfolding fail
    fail-acked e v m = ground (
      arith,
      durable-rollback v.db message.event.aggregate_id,
      failure_acks message.event message.attempts e v.broker m,
      acked-nack message.handle (failure_reason e)
          (handle_failure message.event message.attempts e v.broker).1 m,
    )

    -- However `process` ends, also by raising: a message is newly acknowledged only if the assessment of its
    -- transaction is durably completed by then.
    pub process-acked :
        (m : String)
        → (acked (process store queue risk_handler handle_failure message w).1.broker m
            ≡ acked w.broker m)
          ⊎ (durable
                (process store queue risk_handler handle_failure message w).1.db
                message.event.aggregate_id
              ≡ some completed)
    unfolding process
    process-acked m =
        let v = (attempt store queue risk_handler handle_failure message w).1 in
        elim (status-cases (attempt store queue risk_handler handle_failure message w).0) [
          | inl (e, eq) ↦ ground (arith, eq, attempt-acked m, fail-acked e v m)
          | inr (b, eq) ↦
              ground (arith, eq, attempt-acked m, attempt-durable decides message w clean)
        ]
