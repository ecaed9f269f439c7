-- ===== src/Tests/VelocityTests.antt =====
-- The velocity windows in memory: three entries of the customer, one too old and one of the event itself.
use fraud_latch.Base.{
  suc, ◌≡◌, ◌≤◌, refl, ℕ, arith, none, some, [], ◌∷◌, true, str_eq, if◌then◌else◌,
}
use fraud_latch.Base.Assoc.{Assoc, insert, lookup}
use fraud_latch.Base.Time.{Datetime, seconds, subtract}
use fraud_latch.Base.Outcome.{ok}
use fraud_latch.Base.Action.{for_each}
use fraud_latch.External.SortedSets.{Distinct, highest}
use fraud_latch.Risk.Models.{RiskContext}
use fraud_latch.Risk.Velocity.{
  Provider, customer_key, get_context, validate_event_time, touch, latest_time,
}
use fraud_latch.Risk.Velocity.Window.{others_within, get_context_counts}
use fraud_latch.Tests.Memory.{Sets, memory_sets, no_sets}
use fraud_latch.Tests.RiskTests.{sample}

abbrev self : Provider
self = record { window = seconds 300; ttl_seconds = 600 }

abbrev now : Datetime
now = record { micros = 2000000000; aware = true }

abbrev earlier : Assoc ℕ
earlier = ("t0", 600000000) ∷ ("t9", 900000000) ∷ ("t1", 1000000000) ∷ []

earlier-Distinct : Distinct earlier
unfolding lookup
earlier-Distinct = (refl, (refl, (refl, tt)))

abbrev sets : Sets
sets k =
    if str_eq k (customer_key "c1")
    then record { list = earlier; distinct = earlier-Distinct }
    else no_sets k

abbrev event_time : Datetime
event_time = record { micros = 1000000000; aware = true }

abbrev context : RiskContext
context = record {
  customer_velocity = 2;
  merchant_velocity = 1;
  latest_customer_event_time = some event_time;
  latest_merchant_event_time = some event_time;
  amount_baseline = none;
}

context_run : (get_context memory_sets self sample now sets).0 ≡ ok context
unfolding get_context validate_event_time subtract for_each touch latest_time highest insert
context_run = refl

get_context_counts_example :
    (true ≡ true)
    × (sample.event_time.micros ≤ now.micros)
    × (context.customer_velocity ≡ suc (others_within "t1" 700000000 1000000000 earlier))
    × (context.merchant_velocity ≡ suc (others_within "t1" 700000000 1000000000 []))
get_context_counts_example =
    get_context_counts memory_sets self sample now sets (omega arith) context_run

second_run :
    (get_context memory_sets self sample now (get_context memory_sets self sample now sets).1).0
    ≡ ok context
unfolding get_context validate_event_time subtract for_each touch latest_time highest insert
second_run = refl
