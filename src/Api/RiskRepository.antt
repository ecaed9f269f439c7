-- ===== src/Api/RiskRepository.antt =====
-- fraudlatch/api/risk_repository.py: the upsert of a result or a failure with its audit row, in one flush.
use fraud_latch.Base.{ℕ, String, Option, none, some, [], ◌∷◌, or_default}
use fraud_latch.Base.Action.{Action, pure, ◌>>=◌, ◌>>◌}
use fraud_latch.Db.{
  RiskAssessment, new_assessment, completed, failed, Session, put_assessment, add_processing_event,
}
use fraud_latch.Risk.Models.{RiskDecision}

-- The row after `persist_risk_result`, from the row that was there.
unfoldable pub with_result : Option RiskAssessment → String → ℕ → RiskDecision → RiskAssessment
with_result found id attempt decision = record (or_default found (new_assessment id)) {
  status = completed;
  score = some decision.risk_score;
  level = some decision.risk_level;
  reasons = some decision.reasons;
  engine_version = some "rules-v1";
  attempts = attempt;
  error_code = none;
}

-- The row after `persist_risk_failure`.
unfoldable pub with_failure : Option RiskAssessment → String → ℕ → String → RiskAssessment
with_failure found id attempt code = record (or_default found (new_assessment id)) {
  status = failed;
  attempts = attempt;
  error_code = some code;
}

module _ {S : Type 0} (session : Session S) where
  open session use {get_assessment, flush}

  abbrev pub get_risk_assessment : String → Action S (Option RiskAssessment)
  get_risk_assessment = get_assessment

  unfoldable pub persist_risk_result : String → String → ℕ → RiskDecision → Action S RiskAssessment
  persist_risk_result id event_id attempt decision = do
    found ← get_risk_assessment id
    flush (
        put_assessment (with_result found id attempt decision)
        ∷ add_processing_event (record {
          event_id = event_id;
          transaction_id = id;
          event_type = "risk.assessed";
          attempt = attempt;
          status = completed;
          error_code = none;
        })
        ∷ [])
    pure (with_result found id attempt decision)

  unfoldable pub persist_risk_failure : String → String → ℕ → String → Action S RiskAssessment
  persist_risk_failure id event_id attempt code = do
    found ← get_risk_assessment id
    flush (
        put_assessment (with_failure found id attempt code)
        ∷ add_processing_event (record {
          event_id = event_id;
          transaction_id = id;
          event_type = "risk.assessed";
          attempt = attempt;
          status = failed;
          error_code = some code;
        })
        ∷ [])
    pure (with_failure found id attempt code)
