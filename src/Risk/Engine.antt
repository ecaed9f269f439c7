-- ===== src/Risk/Engine.antt =====
-- fraudlatch/risk/engine.py: the five rules of rules-v1, their order, and the score.
pub mod Reasons
pub mod Score
use fraud_latch.Base.{
  ◌*◌, Bool, true, false, ◌&&◌, Option, none, some, List, [], ◌∷◌, ◌++◌, leb, or_default,
  if◌then◌else◌,
}
use fraud_latch.Base.Int.{pos, leb_ℤ, ltb_ℤ, ◌+ℤ◌, ◌-ℤ◌, ◌*ℤ◌, abs, min_ℤ}
use fraud_latch.Base.Decimal.{Decimal, one, scale, quantize}
use fraud_latch.Base.Assoc.{lookup}
use fraud_latch.Base.Outcome.{Outcome, ok, ◌>>=◌}
use fraud_latch.Risk.Models.{
  ReasonCode, high_amount, customer_velocity, merchant_velocity, category_risk, amount_deviation,
  RiskLevel, low, medium, high, RiskTransaction, AmountBaseline, RiskContext, empty_context,
  RiskReason, risk_reason, RiskDecision, risk_decision,
}
use fraud_latch.Risk.Config.{RulesConfig, default_config}

-- The five conditions of `assess`.
unfoldable pub high_amount_fires : RiskTransaction → RulesConfig → Bool
high_amount_fires t g =
    leb_ℤ (or_default (lookup t.category g.category_amount_thresholds) g.global_amount_threshold)
      t.amount

abbrev pub customer_fires : RiskContext → RulesConfig → Bool
customer_fires c g = leb g.customer_velocity_threshold c.customer_velocity

abbrev pub merchant_fires : RiskContext → RulesConfig → Bool
merchant_fires c g = leb g.merchant_velocity_threshold c.merchant_velocity

unfoldable pub category_weight : RiskTransaction → RulesConfig → Decimal
category_weight t g = or_default (lookup t.category g.category_risk_weights) (pos 0)

unfoldable pub deviates : RiskTransaction → Option AmountBaseline → RulesConfig → Bool
deviates t none g = false
deviates t (some b) g =
    leb g.amount_deviation_min_samples b.sample_count
    && ltb_ℤ (pos 0) b.dispersion
    && ltb_ℤ (b.dispersion *ℤ g.amount_deviation_multiplier)
        (pos (abs (t.amount -ℤ b.mean) * scale))

-- `if test: reasons.append(RiskReason(code=..., contribution=...))`
unfoldable pub rule : Bool → ReasonCode → Decimal → List RiskReason → Outcome (List RiskReason)
rule true code weight reasons = do r ← risk_reason code weight; ok (reasons ++ r ∷ [])
rule false code weight reasons = ok reasons

unfoldable pub evaluate_rules :
    RiskTransaction → RiskContext → RulesConfig → Outcome (List RiskReason)
evaluate_rules t c g = do
  r1 ← rule (high_amount_fires t g) high_amount g.high_amount_weight []
  r2 ← rule (customer_fires c g) customer_velocity g.customer_velocity_weight r1
  r3 ← rule (merchant_fires c g) merchant_velocity g.merchant_velocity_weight r2
  r4 ← rule (ltb_ℤ (pos 0) (category_weight t g)) category_risk (category_weight t g) r3
  rule (deviates t c.amount_baseline g) amount_deviation g.amount_deviation_weight r4

-- `sum((reason.contribution for reason in reasons), start)`
unfoldable pub sum_from : Decimal → List RiskReason → Decimal
sum_from start [] = start
sum_from start (r ∷ rs) = sum_from (start +ℤ r.contribution) rs

-- `SCORE_QUANTUM` is 0.0001, 10000 units.
unfoldable pub score_of : List RiskReason → Decimal
score_of reasons = quantize 10000 (min_ℤ (sum_from (pos 0) reasons) one)

unfoldable pub level_of : Decimal → RiskLevel
level_of score =
    if leb_ℤ (pos 70000000) score then high else if leb_ℤ (pos 40000000) score then medium else low

unfoldable pub assess :
    RiskTransaction → Option RiskContext → Option RulesConfig → Outcome RiskDecision
unfolding evaluate_rules score_of level_of
assess t context config = do
  reasons ← evaluate_rules t (or_default context empty_context) (or_default config default_config)
  risk_decision (score_of reasons) (level_of (score_of reasons)) reasons
