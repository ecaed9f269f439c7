-- ===== src/Tests/CalculateTests.antt =====
-- One event calculated twice over sorted sets in memory.
use fraud_latch.Base.{◌≡◌, refl, true, [], ◌∷◌}
use fraud_latch.Base.Int.{pos, ◌+ℤ◌}
use fraud_latch.Base.Time.{Datetime, subtract}
use fraud_latch.Base.Outcome.{ok}
use fraud_latch.Base.Action.{for_each}
use fraud_latch.Base.Assoc.{insert, lookup}
use fraud_latch.Contracts.Transaction.{text_within}
use fraud_latch.Contracts.Events.{validate_payload, payload_holds}
use fraud_latch.External.SortedSets.{highest}
use fraud_latch.Risk.Models.{
  RiskDecision, validate_risk_transaction, risk_transaction_holds, risk_reason, risk_decision, low,
  high_amount,
}
use fraud_latch.Risk.Engine.{assess, rule, high_amount_fires, deviates, category_weight, sum_from}
use fraud_latch.Risk.Velocity.{get_context, validate_event_time, touch, latest_time}
use fraud_latch.Worker.Calculate.{calculate, calculate_again}
use fraud_latch.Tests.Memory.{memory_sets, no_sets}
use fraud_latch.Tests.EventTests.{event}

abbrev now : Datetime
now = record { micros = 2000000000; aware = true }

abbrev verdict : RiskDecision
verdict = record {
  risk_score = pos 35000000;
  risk_level = low;
  reasons = record { code = high_amount; contribution = pos 35000000 } ∷ [];
}

first_run : (calculate memory_sets now event no_sets).0 ≡ ok verdict
unfolding calculate validate_payload payload_holds text_within validate_risk_transaction
    risk_transaction_holds get_context validate_event_time subtract for_each touch latest_time
    highest insert lookup assess rule high_amount_fires deviates category_weight sum_from
    risk_reason risk_decision ◌+ℤ◌
first_run = refl

second_run :
    (calculate memory_sets now event (calculate memory_sets now event no_sets).1).0 ≡ ok verdict
unfolding calculate validate_payload payload_holds text_within validate_risk_transaction
    risk_transaction_holds get_context validate_event_time subtract for_each touch latest_time
    highest insert lookup assess rule high_amount_fires deviates category_weight sum_from
    risk_reason risk_decision ◌+ℤ◌
second_run = refl

calculate_again_example : verdict ≡ verdict
calculate_again_example =
    calculate_again memory_sets now now event no_sets verdict verdict first_run second_run
