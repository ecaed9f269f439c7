-- ===== src/Queue/Retry/Metrics.antt =====
-- fraudlatch/queue/retry.py: handle_failure with its metrics sink.
use fraud_latch.Base.{arith, ℕ, ◌≡◌, String, if◌then◌else◌}
use fraud_latch.Base.Outcome.{Error}
use fraud_latch.Base.Time.{Datetime}
use fraud_latch.Base.Action.{Action, pure, ◌>>=◌, ◌>>◌}
use fraud_latch.Contracts.Events.{EventEnvelope, Codec}
use fraud_latch.Queue.Retry.{RetryDecision, RetryStore, handle_failure}

-- `RetryMetrics`
pub record RetryMetrics (W : Type 0) : Type 0 where
  pub retry_scheduled : String → Action W (Unit {0})
  pub dead_lettered : String → Action W (Unit {0})

-- `NullRetryMetrics`
abbrev pub null_metrics : {W : Type 0} → RetryMetrics W
null_metrics = record { retry_scheduled = λ code. pure tt; dead_lettered = λ code. pure tt }

module _ {W : Type 0} (metrics : RetryMetrics W) where
  -- The call that follows what was stored.
  abbrev pub tell : RetryDecision → Action W (Unit {0})
  tell decision =
      if decision.retry
      then metrics.retry_scheduled decision.error_code
      else metrics.dead_lettered decision.error_code

  module _ (store : RetryStore W) (codec : Codec) where
    unfoldable pub handle_failure_told :
        EventEnvelope → ℕ → Error → Datetime → Action W RetryDecision
    handle_failure_told event attempt error now = do
      decision ← handle_failure store codec event attempt error now
      tell decision
      pure decision

module _ {W : Type 0} (store : RetryStore W) (codec : Codec) where
  -- With the sink that is the default, the handler is the one without a sink.
  pub handle_failure_told-null :
      (event : EventEnvelope) (attempt : ℕ) (error : Error) (now : Datetime) (w : W)
      → handle_failure_told null_metrics store codec event attempt error now w
        ≡ handle_failure store codec event attempt error now w
  unfolding handle_failure_told
  handle_failure_told-null event attempt error now w = ground arith
