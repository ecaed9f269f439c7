-- ===== src/Worker/Loop.antt =====
-- fraudlatch/worker.py: WorkerLoop.run. `is_set` says of a moment whether the stop event is set by then; signals set it while
-- the loop waits, so that it is any function of the world.
pub mod Delivery
pub mod Safety
use fraud_latch.Base.{
  ℕ, zero, suc, ◌≡◌, String, Bool, true, false, Option, some, List, [], ◌∷◌, str_eq, if◌then◌else◌,
}
use fraud_latch.Base.Outcome.{Outcome, ok, raised, raise_if, value, Error}
use fraud_latch.Base.Action.{Action, pure, ◌>>=◌, ◌>>◌}
use fraud_latch.Contracts.Events.{EventEnvelope}
use fraud_latch.Risk.Models.{RiskDecision}
use fraud_latch.Queue.Retry.{RetryDecision}
use fraud_latch.Queue.Ports.{QueueMessage, QueuePort}
use fraud_latch.Worker.{WorkerStore, World, process, on_broker}

-- `WorkerLoop(...)`, by its consumer
abbrev pub worker_loop : String → Outcome String
worker_loop consumer =
    if str_eq consumer ""
    then raised (record { kind = value; message = "consumer must not be empty" })
    else ok consumer

module _ {S Q : Type 0} (store : WorkerStore S) (queue : QueuePort Q)
    (risk_handler : EventEnvelope → Action Q (Option RiskDecision))
    (handle_failure : EventEnvelope → ℕ → Error → Action Q RetryDecision)
    (is_set : World S Q → Bool) (consumer : String) where
  -- `if stop_event.is_set(): ...`
  abbrev pub unless_set : {A : Type 0} → A → Action (World S Q) A → Action (World S Q) A
  unless_set stopped go w = if is_set w then (ok stopped, w) else go w

  -- The inner loop: whether it has returned from `run`.
  unfoldable pub process_batch : List QueueMessage → Action (World S Q) Bool
  process_batch [] = pure false
  process_batch (message ∷ messages) =
      process store queue risk_handler handle_failure message
      >> unless_set true (process_batch messages)

  abbrev pub otherwise : Action (World S Q) Bool → Bool → Action (World S Q) Bool
  otherwise go true = pure true
  otherwise go false = go

  -- A turn of the outer loop, and what follows if it has not returned.
  unfoldable pub turn : Action (World S Q) Bool → Action (World S Q) Bool
  unfolding process_batch
  turn go = do
    messages ← on_broker (queue.consume consumer 1 (some 500))
    returned ← process_batch messages
    otherwise go returned

  -- At most a number of turns of `run`: whether it has returned.
  unfoldable pub run : ℕ → Action (World S Q) Bool
  unfolding turn
  run zero = pure false
  run (suc turns) = unless_set true (turn (run turns))
