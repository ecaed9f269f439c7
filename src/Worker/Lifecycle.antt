-- ===== src/Worker/Lifecycle.antt =====
-- The life of an assessment under fraudlatch/worker.py: which durable statuses follow one another.
use fraud_latch.Base.{
  ℕ, ◌≡◌, ◌≢◌, refl, sym, String, true, Option, none, some, ◌⊎◌, inl, inr, arith, eq_iff,
}
use mathlib.Core.Path.{subst}
use fraud_latch.Base.Outcome.{Error, succeeded}
use fraud_latch.Base.Action.{Action}
use fraud_latch.Contracts.Events.{EventEnvelope}
use fraud_latch.Db.{Status, completed, processing}
use fraud_latch.Risk.Models.{RiskDecision}
use fraud_latch.Queue.Retry.{RetryDecision}
use fraud_latch.Queue.Ports.{QueueMessage, QueuePort}
use fraud_latch.Worker.{
  WorkerStore, World, persist, calculate_and_persist, attempt, fail, process, is_completed,
}
use fraud_latch.Worker.Durability.{IsClean, status-cases, is_completed-eq}

-- The specification of the worker's effect on one assessment: work starts on one that is not completed, and completes. No step
-- leads to `failed`: no code calls `persist_risk_failure`.
pub data Step : Option Status → Option Status → Type 0 where
  start : (o p : Option Status) → o ≢ some completed → p ≡ some processing → Step o p
  finish : (o p : Option Status) → o ≡ some processing → p ≡ some completed → Step o p

pub data Reach (o : Option Status) : Option Status → Type 0 where
  here : Reach o o
  next : {p q : Option Status} → Reach o p → Step p q → Reach o q

pub Reach-trans : {o p q : Option Status} → Reach o p → Reach p q → Reach o q
Reach-trans r here = r
Reach-trans r (next s st) = next (Reach-trans r s) st

-- Nothing follows completion.
Step-final : {o p : Option Status} → Step o p → o ≢ some completed
Step-final (start o p n e) = n
Step-final (finish o p e f) = λ h. ground (arith, e, h)

pub Reach-completed : {o p : Option Status} → o ≡ some completed → Reach o p → p ≡ some completed
Reach-completed e here = e
Reach-completed e (next r st) = absurd (Step-final st (Reach-completed e r))

-- Where a durable status may be after one message, from where it was.
abbrev Moved : Option Status → Option Status → Type 0
Moved o p = (p ≡ o) ⊎ ((o ≢ some completed) × ((p ≡ some processing) ⊎ (p ≡ some completed)))

Moved-Reach : (o p : Option Status) → Moved o p → Reach o p
Moved-Reach o p (inl e) = subst (Reach o) (sym e) here
Moved-Reach o p (inr (n, inl e)) = next here (start o p n e)
Moved-Reach o p (inr (n, inr e)) =
    next (next here (start o (some processing) n refl)) (finish (some processing) p refl e)

is_completed-eq_rev : (o : Option Status) → o ≡ some completed → is_completed o ≡ true
is_completed-eq_rev o h = rw h

module _ {S Q : Type 0} (store : WorkerStore S) (queue : QueuePort Q)
    (risk_handler : EventEnvelope → Action Q (Option RiskDecision))
    (handle_failure : EventEnvelope → ℕ → Error → Action Q RetryDecision)
    (message : QueueMessage) where
  open store use {
    seen, durable, transaction_exists, assessment_status, mark_processing, commit, rollback,
    transaction_exists-same, assessment_status-ok, assessment_status-same, seen-mark_processing,
    durable-mark_processing, seen-persist_decision, durable-persist_decision, commit-ok, commit-any,
    durable-rollback,
  }

  abbrev id : String
  id = message.event.aggregate_id

  -- What a successful persistence shows.
  persist_seen :
      (o : Option RiskDecision) (s : S) (j : String)
      → succeeded (persist store message o s).0 ≡ true
      → (seen (persist store message o s).1 j ≡ seen s j)
        ⊎ ((id ≡ j) × (seen (persist store message o s).1 j ≡ some completed))
  unfolding persist
  persist_seen none s j h = inl refl
  persist_seen (some d) s j h =
      ground (arith, seen-persist_decision id _ message.attempts d s j h, eq_iff id j)

  persist_durable :
      (o : Option RiskDecision) (s : S) (j : String)
      → durable (persist store message o s).1 j ≡ durable s j
  unfolding persist
  persist_durable none s j = refl
  persist_durable (some d) s j = durable-persist_decision _ _ _ d s j

  calculate_moves :
      (v : World S Q) (j : String)
      → seen v.db j ≡ durable v.db j
      → let p =
          durable
            (calculate_and_persist store queue risk_handler handle_failure message v).1.db
            j in
        (p ≡ durable v.db j) ⊎ ((id ≡ j) × ((p ≡ some processing) ⊎ (p ≡ some completed)))
  unfolding calculate_and_persist
  calculate_moves v j clean =
      let s1 = (mark_processing id message.attempts v.db).1 in
      let s2 = (commit s1).1 in
      elim (status-cases (risk_handler message.event v.broker).0) [
        | inl (e, eq) ↦ ground (
          arith,
          eq,
          clean,
          commit-any s1 j,
          durable-mark_processing id message.attempts v.db j,
          seen-mark_processing id message.attempts v.db j,
          eq_iff id j,
        )
        | inr (o, eq) ↦
            let s3 = (persist store message o s2).1 in
            ground (
              arith,
              eq,
              clean,
              commit-any s1 j,
              commit-ok s1 j,
              durable-mark_processing id message.attempts v.db j,
              seen-mark_processing id message.attempts v.db j,
              eq_iff id j,
              persist_seen o s2 j,
              persist_durable o s2 j,
              commit-any s3 j,
            )
      ]

  attempt_moves :
      (w : World S Q) (j : String)
      → IsClean store w.db
      → Moved
          (durable w.db j)
          (durable (attempt store queue risk_handler handle_failure message w).1.db j)
  unfolding attempt
  attempt_moves w j clean =
      let s1 = (transaction_exists id w.db).1 in
      let w2 = record w { db = (assessment_status id s1).1 } in
      elim (status-cases (assessment_status id s1).0) [
        | inl (e, eq) ↦
            ground (arith, eq, transaction_exists-same id j w.db, assessment_status-same id j s1)
        | inr (o, eq) ↦ ground (
          arith,
          eq,
          clean j,
          clean id,
          is_completed-eq o,
          is_completed-eq_rev o,
          assessment_status-ok id o s1 eq,
          transaction_exists-same id j w.db,
          transaction_exists-same id id w.db,
          assessment_status-same id j s1,
          calculate_moves w2 j,
        )
      ]

  -- However the processing of one message ends, also by raising: the durable status of every transaction has only taken steps of the
  -- specification.
  pub process-Reach :
      (w : World S Q)
      → IsClean store w.db
      → (j : String)
      → Reach
          (durable w.db j)
          (durable (process store queue risk_handler handle_failure message w).1.db j)
  unfolding process fail
  process-Reach w clean j =
      let v = (attempt store queue risk_handler handle_failure message w).1 in
      subst (Reach (durable w.db j)) (ground (arith, durable-rollback v.db j))
        (Moved-Reach _ _ (attempt_moves w j clean))
