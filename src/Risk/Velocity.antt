-- ===== src/Risk/Velocity.antt =====
-- fraudlatch/risk/velocity.py: the windows of recent events of a customer and of a merchant, kept in Redis.
pub mod Window
use Prim.Native.String.{◌++◌}
use mathlib.Core.Option
use fraud_latch.Base.{
  ℕ, String, true, not, Option, none, some, List, [], ◌∷◌, ltb, or_default, if◌then◌else◌,
}
use fraud_latch.Base.Time.{Datetime, subtract}
use fraud_latch.Base.Outcome.{Outcome, ok, raise_if, value, ◌>>◌ as ◌and_then◌}
use fraud_latch.Base.Action.{Action, pure, lift, ◌>>=◌, ◌>>◌, for_each}
use fraud_latch.External.SortedSets.{SortedSets}
use fraud_latch.Risk.Models.{RiskTransaction, RiskContext}

abbrev pub customer_key : String → String
customer_key customer_id = "fraudlatch:velocity:customer:" ++ customer_id

abbrev pub merchant_key : String → String
merchant_key merchant_id = "fraudlatch:velocity:merchant:" ++ merchant_id

-- `VelocityContextProvider`: the window is a `timedelta` in microseconds.
pub record Provider : Type 0 where
  pub window : ℕ
  pub ttl_seconds : ℕ

-- `__init__`, where a `timedelta` or a count below 1 is given as 0
unfoldable pub provider : ℕ → ℕ → Outcome Provider
provider window ttl_seconds =
    raise_if (not (ltb 0 window)) value "window must be positive"
    and_then raise_if (not (ltb 0 ttl_seconds)) value "ttl_seconds must be positive"
    and_then ok (record { window = window; ttl_seconds = ttl_seconds })

unfoldable pub validate_event_time : Datetime → Datetime → Outcome (Unit {0})
validate_event_time event_time now =
    raise_if (not event_time.aware) value "event_time must be timezone-aware"
    and_then raise_if (not now.aware) value "now must be timezone-aware"
    and_then raise_if (ltb now.micros event_time.micros) value "event_time cannot be in the future"

module _ {W : Type 0} (redis : SortedSets W) where
  open redis use {zremrangebyscore, zadd, expire, zcount, zrange_last}

  -- The three commands for one key, in the order of the loop body.
  unfoldable pub touch : ℕ → String → ℕ → ℕ → String → Action W (Unit {0})
  touch ttl id score cutoff key = do zremrangebyscore key cutoff; zadd key id score; expire key ttl

  -- `_latest_time`
  unfoldable pub latest_time : String → Action W (Option Datetime)
  latest_time key = do
    row ← zrange_last key
    pure (Option.map (λ micros. record { micros = micros; aware = true }) row)

  -- `now` is `now or datetime.now(UTC)`.
  unfoldable pub get_context : Provider → RiskTransaction → Datetime → Action W RiskContext
  get_context self t now = do
    lift (validate_event_time t.event_time now)
    cutoff ← lift (subtract t.event_time self.window)
    for_each (touch self.ttl_seconds t.transaction_id t.event_time.micros cutoff.micros)
        (customer_key t.customer_id ∷ merchant_key t.merchant_id ∷ [])
    customer_count ← zcount (customer_key t.customer_id) cutoff.micros t.event_time.micros
    merchant_count ← zcount (merchant_key t.merchant_id) cutoff.micros t.event_time.micros
    customer_time ← latest_time (customer_key t.customer_id)
    merchant_time ← latest_time (merchant_key t.merchant_id)
    pure (record {
      customer_velocity = customer_count;
      merchant_velocity = merchant_count;
      latest_customer_event_time = customer_time;
      latest_merchant_event_time = merchant_time;
      amount_baseline = none;
    })
