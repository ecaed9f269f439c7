-- ===== src/Queue/Retry/Handler.antt =====
-- What the retry handler of fraudlatch/queue/retry.py leaves behind on each path.
use fraud_latch.Base.{
  ℕ, ◌+◌, ◌*◌, ◌≡◌, ◌≤◌, ◌<◌, ◌⊎◌, ◌↔◌, ◌==◌, refl, Bool, true, ◌&&◌, some, arith, ltb,
  if◌then◌else◌, String,
}
use fraud_latch.Base.Time.{Datetime}
use fraud_latch.Base.Outcome.{
  ErrorKind, timeout, connection, redis, transient, Error, ok, raised, succeeded, value,
}
use fraud_latch.Contracts.Events.{EventEnvelope, Codec, serialize_event}
use fraud_latch.Queue.Retry.{
  classify_processing_error, decide, RetryRecord, DeadLetter, RetryStore, handle_failure,
}

-- The classes of error that may pass by themselves.
abbrev pub IsTransient : ErrorKind → Type 0
IsTransient timeout = Unit
IsTransient connection = Unit
IsTransient redis = Unit
IsTransient transient = Unit
IsTransient _ = ⊥

abbrev pub may_retry : Error → Bool
may_retry e = (classify_processing_error e).1

classify_kind : (k : ErrorKind) (e : Error) → e.kind ≡ k → (may_retry e ≡ true) ↔ IsTransient k
unfolding classify_processing_error
classify_kind timeout e h = rw h ((λ _. tt), λ _. refl)
classify_kind k e h = rw h (ground arith)

-- An error is retried exactly if it is a timeout, a connection or Redis error or marked as transient.
pub classify_iff : (e : Error) → (may_retry e ≡ true) ↔ IsTransient e.kind
classify_iff e = classify_kind e.kind e refl

-- The pause before the next attempt: one second after the first, five after the second.
abbrev pub pause : ℕ → ℕ
pause attempt = if attempt == 1 then 1 else 5

decide_lem :
    (attempt : ℕ) (code : String) (b : Bool)
    → 1 ≤ attempt
    → attempt ≤ 3
    → decide attempt code b
      ≡ ok (record {
        attempt = attempt;
        error_code = code;
        retry = b && ltb attempt 3;
        delay_seconds = if b && ltb attempt 3 then pause attempt else 0;
      })
unfolding decide
decide_lem attempt code b p q = ground arith

module _ {W : Type 0} (store : RetryStore W) (codec : Codec) where
  open store use {scheduled, dead, scheduled-zadd, dead-zadd, dead-xadd, scheduled-xadd}

  -- The record of the next attempt.
  abbrev pub next_try : EventEnvelope → ℕ → Error → RetryRecord
  next_try event attempt error = record {
    envelope = serialize_event codec event;
    attempt = attempt + 1;
    error_code = (classify_processing_error error).0;
  }

  abbrev pub letter : EventEnvelope → ℕ → Error → Datetime → DeadLetter
  letter event attempt error now = record {
    envelope = serialize_event codec event;
    attempts = attempt;
    error_code = (classify_processing_error error).0;
    failed_at = now;
  }

  module _ (event : EventEnvelope) (attempt : ℕ) (error : Error) (now : Datetime) (w : W) where
    abbrev after : W
    after = (handle_failure store codec event attempt error now w).1

    -- A transient failure of the first or second attempt schedules the next attempt one or five seconds later and
    -- dead-letters nothing.
    pub handle_failure_retries :
        1 ≤ attempt
        → attempt < 3
        → IsTransient error.kind
        → succeeded (handle_failure store codec event attempt error now w).0 ≡ true
        → (scheduled after (next_try event attempt error)
            ≡ some (now.micros + pause attempt * 1000000))
          × (dead after ≡ dead w)
    unfolding handle_failure
    handle_failure_retries p q t h =
        let r = next_try event attempt error in
        let due = now.micros + pause attempt * 1000000 in
        ground (
          arith,
          decide_lem attempt (classify_processing_error error).0 (may_retry error) p,
          (classify_iff error).1 t,
          scheduled-zadd r due w,
          dead-zadd r due w,
        )

    -- An attempt outside 1 to 3 raises ValueError and writes nothing.
    pub handle_failure_out_of_range :
        (attempt < 1) ⊎ (3 < attempt)
        → handle_failure store codec event attempt error now w
          ≡ (raised (record { kind = value; message = "attempt must be between 1 and 3" }), w)
    unfolding handle_failure decide
    handle_failure_out_of_range h = ground arith
