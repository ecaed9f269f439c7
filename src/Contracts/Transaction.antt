-- ===== src/Contracts/Transaction.antt =====
-- The fields that a transaction has in every layer: TransactionIn of fraudlatch/api/schemas.py,
-- TransactionReceivedPayload of fraudlatch/contracts/events.py and RiskTransaction of fraudlatch/risk/models.py declare the
-- same names and types, each with its own constraints.
use Prim.Native.String.{count}
use fraud_latch.Base.{ℕ, String, Bool, ◌&&◌, Option, leb}
use fraud_latch.Base.Int.{ℤ}
use fraud_latch.Base.Decimal.{Decimal}
use fraud_latch.Base.Time.{Datetime}

-- `source_metadata`, a JSON object, is its canonical text.
pub record TransactionFields : Type 0 where
  pub transaction_id : String
  pub customer_id : String
  pub merchant_id : String
  pub category : String
  pub amount : Decimal
  pub source_step : ℤ
  pub source : String
  pub event_time : Datetime
  pub source_metadata : Option String

-- `min_length=1, max_length=n`, in characters
unfoldable pub text_within : ℕ → String → Bool
text_within n s = leb 1 (count s) && leb (count s) n
