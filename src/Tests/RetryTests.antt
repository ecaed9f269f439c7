-- ===== src/Tests/RetryTests.antt =====
-- The retry handler on a timeout and on a permanent error.
use fraud_latch.Base.{ℕ, ◌≡◌, ◌+◌, ◌*◌, refl, arith, some, [], true}
use fraud_latch.Base.Time.{Datetime}
use fraud_latch.Base.Outcome.{Error, timeout, permanent}
use fraud_latch.Queue.Retry.{handle_failure, decide, classify_processing_error}
use fraud_latch.Queue.Retry.Handler.{next_try, pause, handle_failure_retries}
use fraud_latch.Tests.Memory.{Letters, memory_letters, no_letters}
use fraud_latch.Tests.EventTests.{event, codec}

abbrev now : Datetime
now = record { micros = 2000000000; aware = true }

abbrev timed_out : Error
timed_out = record { kind = timeout; message = "" }

abbrev rejected : Error
rejected = record { kind = permanent; message = "transaction not found" }

abbrev after : ℕ → Error → Letters
after n e = (handle_failure memory_letters codec event n e now no_letters).1

handle_failure_retries_example :
    ((after 2 timed_out).set (next_try memory_letters codec event 2 timed_out)
      ≡ some (2000000000 + pause 2 * 1000000))
    × ((after 2 timed_out).stream ≡ [])
unfolding handle_failure decide classify_processing_error
handle_failure_retries_example =
    handle_failure_retries memory_letters codec event 2 timed_out now no_letters (omega arith)
      (omega arith) tt refl
