-- ===== src/Base/Time.antt =====
-- Python's `datetime` and `timedelta`: an instant is the microseconds since 0001-01-01T00:00Z, and
-- says whether it carries a UTC offset (`tzinfo is None or utcoffset() is None` is `aware ≡ false`).
use Prim.Native.Nat.{ℕ, ◌+◌, ◌-◌, ◌*◌}
use mathlib.Core.Bool.{Bool}
use fraud_latch.Base.Tests.{ltb, if◌then◌else◌}
use fraud_latch.Base.Outcome.{Outcome, ok, raised, overflow}

pub record Datetime : Type 0 where
  pub micros : ℕ
  pub aware : Bool

abbrev pub seconds : ℕ → ℕ
seconds n = n * 1000000

-- `t + timedelta(seconds=n)`
abbrev pub add_seconds : Datetime → ℕ → Datetime
add_seconds t n = record t { micros = t.micros + seconds n }

-- `t - delta`, which raises OverflowError below year 1
unfoldable pub subtract : Datetime → ℕ → Outcome Datetime
subtract t delta =
    if ltb t.micros delta
    then raised (record { kind = overflow; message = "date value out of range" })
    else ok (record t { micros = t.micros - delta })
