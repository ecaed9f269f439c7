-- ===== src/Risk/Models.antt =====
-- fraudlatch/risk/models.py: the scorer's input, context and output. What Pydantic validates when
-- an output is built is part of the constructor functions.
use fraud_latch.Base.{ℕ, ◌*◌, Bool, not, ◌&&◌, Option, none, List}
use fraud_latch.Base.Int.{pos, leb_ℤ, ltb_ℤ}
use fraud_latch.Contracts.Transaction.{TransactionFields, text_within}
use fraud_latch.Base.Decimal.{Decimal, one, scale, has_digits}
use fraud_latch.Base.Time.{Datetime}
use fraud_latch.Base.Outcome.{Outcome, ok, ◌>>◌, raise_if, value}

pub data ReasonCode : Type 0 where
  high_amount customer_velocity merchant_velocity category_risk amount_deviation : ReasonCode

pub data RiskLevel : Type 0 where
  low medium high : RiskLevel

abbrev pub RiskTransaction : Type 0
RiskTransaction = TransactionFields

-- The Field constraints and `require_timezone`.
unfoldable pub risk_transaction_holds : RiskTransaction → Bool
risk_transaction_holds t =
    text_within 128 t.transaction_id
    && text_within 128 t.customer_id
    && text_within 128 t.merchant_id
    && text_within 128 t.category
    && ltb_ℤ (pos 0) t.amount
    && has_digits 1000000 1000000000000000000000000 t.amount
    && leb_ℤ (pos 0) t.source_step
    && text_within 64 t.source
    && t.event_time.aware

-- `RiskTransaction.model_validate(...)`
unfoldable pub validate_risk_transaction : RiskTransaction → Outcome RiskTransaction
validate_risk_transaction t =
    raise_if (not (risk_transaction_holds t)) value "RiskTransaction" >> ok t

pub record AmountBaseline : Type 0 where
  pub mean : Decimal
  pub dispersion : Decimal
  pub sample_count : ℕ

pub record RiskContext : Type 0 where
  pub customer_velocity : ℕ
  pub merchant_velocity : ℕ
  pub latest_customer_event_time : Option Datetime
  pub latest_merchant_event_time : Option Datetime
  pub amount_baseline : Option AmountBaseline

-- `RiskContext()`
abbrev pub empty_context : RiskContext
empty_context = record {
  customer_velocity = 0;
  merchant_velocity = 0;
  latest_customer_event_time = none;
  latest_merchant_event_time = none;
  amount_baseline = none;
}

pub record RiskReason : Type 0 where
  pub code : ReasonCode
  pub contribution : Decimal

-- `ge=0, le=1, max_digits=5, decimal_places=4`
abbrev pub is_share : Decimal → Bool
is_share d = leb_ℤ (pos 0) d && leb_ℤ d one && has_digits 10000 (10 * scale) d

-- `RiskReason(code=..., contribution=...)`
unfoldable pub risk_reason : ReasonCode → Decimal → Outcome RiskReason
risk_reason code contribution =
    raise_if (not (is_share contribution)) value "RiskReason"
    >> ok (record { code = code; contribution = contribution })

-- `engine_version` is the constant "rules-v1".
pub record RiskDecision : Type 0 where
  pub risk_score : Decimal
  pub risk_level : RiskLevel
  pub reasons : List RiskReason

-- `RiskDecision(risk_score=..., risk_level=..., reasons=...)`
unfoldable pub risk_decision : Decimal → RiskLevel → List RiskReason → Outcome RiskDecision
risk_decision score level reasons =
    raise_if (not (is_share score)) value "RiskDecision"
    >> ok (record { risk_score = score; risk_level = level; reasons = reasons })
