-- ===== src/Tests/RiskTests.antt =====
-- The rules engine on a transaction of 1500.00 by a busy customer.
use fraud_latch.Base.{
  ◌≡◌, refl, ◌↔◌, ◌≤◌, true, none, some, [], ◌∷◌, arith, if◌then◌else◌, ◌%◌, min, ◌*◌,
}
use fraud_latch.Base.Int.{pos, abs, ◌≤ℤ◌, ◌+ℤ◌, ◌-ℤ◌, ◌*ℤ◌}
use fraud_latch.Base.Decimal.{scale, one}
use fraud_latch.Base.Assoc.{lookup}
use fraud_latch.Base.Outcome.{ok, raised}
use fraud_latch.Contracts.Transaction.{TransactionFields}
use fraud_latch.Risk.Models.{
  high_amount, customer_velocity, amount_deviation, high, medium, RiskContext, empty_context,
  RiskDecision, risk_reason, risk_decision,
}
use fraud_latch.Risk.Config.{
  RulesConfig, default_config, rules_config, config_holds, all_positive, all_weights,
}
use fraud_latch.Risk.Engine.{assess, high_amount_fires, category_weight, deviates, rule, sum_from}
use fraud_latch.Risk.Engine.Reasons.{fired_rules, occurrences, Applies, bad_reason, all_shares}
use fraud_latch.Risk.Engine.Score.{
  total, LevelFits, decision, assess_lem, assess_score, assess_reasons, assess_default_total,
}

abbrev pub sample : TransactionFields
sample = record {
  transaction_id = "t1";
  customer_id = "c1";
  merchant_id = "m1";
  category = "es_travel";
  amount = pos (1500 * scale);
  source_step = pos 3;
  source = "api";
  event_time = record { micros = 1000000000; aware = true };
  source_metadata = none;
}

abbrev pub busy : RiskContext
busy = record empty_context {
  customer_velocity = 7;
  amount_baseline =
      some (record { mean = pos (100 * scale); dispersion = pos (20 * scale); sample_count = 9 });
}

abbrev pub outcome : RiskDecision
outcome = record {
  risk_score = pos 80000000;
  risk_level = high;
  reasons =
      record { code = high_amount; contribution = pos 35000000 }
      ∷ record { code = customer_velocity; contribution = pos 25000000 }
      ∷ record { code = amount_deviation; contribution = pos 20000000 }
      ∷ [];
}

pub busy_run : assess sample (some busy) (some default_config) ≡ ok outcome
unfolding assess risk_reason risk_decision high_amount_fires category_weight deviates rule sum_from
    lookup ◌+ℤ◌ ◌-ℤ◌ ◌*ℤ◌
busy_run = refl

assess_score_example :
    (pos 0 ≤ℤ outcome.risk_score)
    × (outcome.risk_score ≤ℤ one)
    × (abs outcome.risk_score % 10000 ≡ 0)
    × (outcome.risk_score ≡ pos (min (total outcome.reasons) scale))
    × LevelFits outcome.risk_level outcome.risk_score
assess_score_example = assess_score sample busy default_config busy_run

assess_reasons_example :
    ((occurrences high_amount outcome.reasons ≡ 1) ↔ Applies high_amount sample busy default_config)
    × (occurrences high_amount outcome.reasons ≤ 1)
assess_reasons_example = assess_reasons sample busy default_config busy_run high_amount

-- A weight of 0.12345.
abbrev fine_config : RulesConfig
fine_config = record default_config { high_amount_weight = pos 12345000 }

fine_config_accepted : rules_config fine_config ≡ ok fine_config
unfolding rules_config config_holds all_positive all_weights
fine_config_accepted = refl

fine_config-Applies : Applies high_amount sample busy fine_config
unfolding lookup
fine_config-Applies = omega arith

assess_default_total_example : (d : RiskDecision) × (assess sample (some busy) none ≡ ok d)
assess_default_total_example = assess_default_total sample (some busy)

idle_run :
    assess sample (some (record busy { customer_velocity = 0 })) (some default_config)
    ≡ ok (record {
      risk_score = pos 55000000;
      risk_level = medium;
      reasons =
          record { code = high_amount; contribution = pos 35000000 }
          ∷ record { code = amount_deviation; contribution = pos 20000000 }
          ∷ [];
    })
unfolding assess risk_reason risk_decision high_amount_fires category_weight deviates rule sum_from
    lookup ◌+ℤ◌ ◌-ℤ◌ ◌*ℤ◌
idle_run = refl

assess_lem_example : assess sample (some busy) (some default_config) ≡ (
    if all_shares (fired_rules sample busy default_config)
    then ok (decision (fired_rules sample busy default_config))
    else raised bad_reason)
assess_lem_example = assess_lem sample busy default_config
