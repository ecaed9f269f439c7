-- ===== src/Queue/Retry.antt =====
-- fraudlatch/queue/retry.py: the classification of errors, the three-attempt policy, and the handler that
-- schedules a retry or publishes to the dead-letter stream.
pub mod Handler
pub mod Records
pub mod Metrics
use fraud_latch.Base.{
  ℕ, ◌+◌, ◌-◌, ◌≡◌, String, Bool, true, false, not, ◌&&◌, ◌||◌, Option, none, some, ◌≢◌, List, [],
  ◌∷◌, ◌++◌, ltb, leb, str_eq, if◌then◌else◌,
}
use fraud_latch.Base.Time.{Datetime, add_seconds}
use fraud_latch.Base.Outcome.{
  ErrorKind, timeout, connection, redis, transient, permanent, unsupported_version, value, overflow,
  key, integrity, other, Error, Outcome, ok, raised, succeeded, raise_if, ◌>>◌ as ◌and_then◌,
}
use fraud_latch.Base.Action.{Action, pure, lift, ◌>>=◌, ◌>>◌}
use fraud_latch.Contracts.Events.{EventEnvelope, Codec, serialize_event}

-- `RetryDecision`
pub record RetryDecision : Type 0 where
  pub attempt : ℕ
  pub error_code : String
  pub retry : Bool
  pub delay_seconds : ℕ

-- `RetryPolicy.max_attempts` and `retry_delays_seconds`
abbrev pub max_attempts : ℕ
max_attempts = 3

abbrev pub retry_delay : ℕ → ℕ
retry_delay index = if ltb index 1 then 1 else 5

-- `classify_processing_error`: the `isinstance` tests from the top, UnsupportedEventVersionError before its
-- base class ValueError.
unfoldable pub classify_processing_error : Error → String × Bool
classify_processing_error e = elim e.kind [
  | timeout ↦ ("dependency_timeout", true)
  | connection ↦ ("dependency_unavailable", true)
  | redis ↦ ("dependency_unavailable", true)
  | transient ↦ ("dependency_unavailable", true)
  | unsupported_version ↦ ("unsupported_schema_version", false)
  | permanent ↦ ("invalid_event", false)
  | value ↦ ("invalid_event", false)
  | overflow ↦ ("processing_error", false)
  | key ↦ ("processing_error", false)
  | integrity ↦ ("processing_error", false)
  | other ↦ ("processing_error", false)
]

-- `RetryPolicy.decide`
unfoldable pub decide : ℕ → String → Bool → Outcome RetryDecision
decide attempt error_code is_transient =
    let should_retry = is_transient && ltb attempt max_attempts in
    raise_if (ltb attempt 1 || ltb max_attempts attempt) value "attempt must be between 1 and 3"
    and_then ok (record {
      attempt = attempt;
      error_code = error_code;
      retry = should_retry;
      delay_seconds = if should_retry then retry_delay (attempt - 1) else 0;
    })

-- The record of a scheduled retry, and the fields of a dead-lettered event.
pub record RetryRecord : Type 0 where
  pub envelope : String
  pub attempt : ℕ
  pub error_code : String

pub record DeadLetter : Type 0 where
  pub envelope : String
  pub attempts : ℕ
  pub error_code : String
  pub failed_at : Datetime

-- What the handler uses of redis-py: `zadd` on the retry set, whose member is the JSON text of the record
-- and whose score is its due time, and `xadd` on the dead-letter stream. `scheduled` and `dead` are what a
-- client can read there.
pub record RetryStore (W : Type 0) : Type 0 where
  pub scheduled : W → RetryRecord → Option ℕ
  pub dead : W → List DeadLetter
  pub zadd : RetryRecord → ℕ → Action W (Unit {0})
  pub xadd : DeadLetter → Action W String
  pub scheduled-zadd :
      (r : RetryRecord) (due : ℕ) (w : W)
      → succeeded (zadd r due w).0 ≡ true
      → (scheduled (zadd r due w).1 r ≡ some due)
        × ((s : RetryRecord) → s ≢ r → scheduled (zadd r due w).1 s ≡ scheduled w s)
  pub dead-zadd : (r : RetryRecord) (due : ℕ) (w : W) → dead (zadd r due w).1 ≡ dead w
  pub dead-xadd :
      (d : DeadLetter) (w : W)
      → succeeded (xadd d w).0 ≡ true
      → dead (xadd d w).1 ≡ dead w ++ d ∷ []
  pub scheduled-xadd :
      (d : DeadLetter) (w : W) (r : RetryRecord) → scheduled (xadd d w).1 r ≡ scheduled w r

module _ {W : Type 0} (store : RetryStore W) (codec : Codec) where
  open store use {zadd, xadd}

  -- `now` is `now or datetime.now(UTC)`.
  unfoldable pub schedule_retry : EventEnvelope → RetryDecision → Datetime → Action W (Unit {0})
  schedule_retry event decision now =
      zadd
        (record {
          envelope = serialize_event codec event;
          attempt = decision.attempt + 1;
          error_code = decision.error_code;
        })
        (add_seconds now decision.delay_seconds).micros

  unfoldable pub publish_dlq : EventEnvelope → RetryDecision → Datetime → Action W String
  publish_dlq event decision now = xadd (record {
    envelope = serialize_event codec event;
    attempts = decision.attempt;
    error_code = decision.error_code;
    failed_at = now;
  })

  -- The metrics calls of `handle_failure` go to a sink that stores nothing here (NullRetryMetrics); Metrics adds the sink.
  unfoldable pub handle_failure : EventEnvelope → ℕ → Error → Datetime → Action W RetryDecision
  unfolding schedule_retry publish_dlq
  handle_failure event attempt error now = do
    let (error_code, is_transient) = classify_processing_error error
    decision ← lift (decide attempt error_code is_transient)
    if decision.retry
        then (schedule_retry event decision now >> pure decision)
        else (publish_dlq event decision now >> pure decision)
