-- ===== src/Tests/LoopTests.antt =====
-- Two turns of the worker's loop over a queue that delivers one message again and again.
use fraud_latch.Base.{◌≡◌, refl, sym, All, arith, Bool, true, false, some, List, [], ◌∷◌}
use mathlib.Core.Path.{subst}
use fraud_latch.Base.Assoc.{lookup, insert}
use fraud_latch.Base.Outcome.{ok}
use fraud_latch.Db.{completed, apply_all, apply}
use fraud_latch.Queue.Ports.{QueuePort, QueueMessage}
use fraud_latch.Api.RiskRepository.{with_result, persist_risk_result}
use fraud_latch.Worker.{World, persist, process}
use fraud_latch.Worker.DatabaseStore.{
  database_store, transaction_exists, assessment_status, mark_processing, persist_decision, marked,
}
use fraud_latch.Worker.Lifecycle.{Reach}
use fraud_latch.Worker.Loop.{run}
use fraud_latch.Worker.Loop.Safety.{run-Reach, run-acked}
use fraud_latch.Tests.Memory.{Store, memory_session, memory_queue, Broker, ok-injective}
use fraud_latch.Tests.WorkerTests.{message, start, decide_low, note_failure, always_decides}

abbrev repeating_queue : QueuePort Broker
repeating_queue = record memory_queue {
  consume = λ name n block q. (ok (message ∷ []), q);
  acked-consume = λ name n block q id. refl;
}

abbrev never : World Store Broker → Bool
never w = false

abbrev after : World Store Broker
after =
    (run (database_store memory_session) repeating_queue decide_low note_failure never "worker-1" 2
      start).1

run-Reach_example :
    Reach
      ((database_store memory_session).durable start.db "t1")
      ((database_store memory_session).durable after.db "t1")
run-Reach_example =
    run-Reach (database_store memory_session) repeating_queue decide_low note_failure never
      "worker-1" start (λ j. unfold database_store in refl) 2 "t1"

acknowledged : repeating_queue.acked after.broker "1-0" ≡ true
unfolding run process database_store transaction_exists assessment_status mark_processing
    persist_decision marked persist persist_risk_result with_result apply_all apply lookup insert
acknowledged = refl

about :
    (w : World Store Broker) (ms : List QueueMessage)
    → (repeating_queue.consume "worker-1" 1 (some 500) w.broker).0 ≡ ok ms
    → All (λ x. "t1" ≡ x.event.aggregate_id) ms
about w ms e = subst (All (λ x. "t1" ≡ x.event.aggregate_id)) (sym (ok-injective _ _ e)) (refl, tt)

run-acked_example : (database_store memory_session).durable after.db "t1" ≡ some completed
run-acked_example =
    run-acked (database_store memory_session) repeating_queue decide_low note_failure never
      "worker-1" always_decides (λ e q id. refl) (λ e n x q id. refl) (λ m. "t1") about start
      (λ j. unfold database_store in refl) (λ m d. absurd (ground (arith, d))) 2 "1-0" acknowledged
