-- ===== src/Worker/Loop/Delivery.antt =====
-- At-least-once delivery over a whole run of WorkerLoop (fraudlatch/worker.py): what is durable when the loop ends, however it ends.
use fraud_latch.Base.{
  ℕ, zero, suc, ◌≡◌, String, Bool, true, false, Option, some, List, [], ◌∷◌, inl, inr, All,
  Bool-cases,
}
use fraud_latch.Base.Outcome.{ok, Error}
use fraud_latch.Base.Action.{Action, pure, ◌>>=◌}
use fraud_latch.Base.Leads.{Leads, Keeps, bind-Keeps}
use fraud_latch.Contracts.Events.{EventEnvelope}
use fraud_latch.Risk.Models.{RiskDecision}
use fraud_latch.Queue.Retry.{RetryDecision}
use fraud_latch.Queue.Ports.{QueueMessage, QueuePort}
use fraud_latch.Worker.{WorkerStore, World, process, on_broker}
use fraud_latch.Worker.Durability.{IsClean}
use fraud_latch.Worker.Redelivery.{process-IsClean}
use fraud_latch.Worker.Loop.{run, turn, process_batch, unless_set, otherwise}

-- What a run leads to, where what holds between two messages does hold after each of its calls.
module _ {S Q : Type 0} (store : WorkerStore S) (queue : QueuePort Q)
    (risk_handler : EventEnvelope → Action Q (Option RiskDecision))
    (handle_failure : EventEnvelope → ℕ → Error → Action Q RetryDecision)
    (is_set : World S Q → Bool) (consumer : String) (Good : QueueMessage → Type 0)
    (P : World S Q → Type 0)
    (consume_keeps : Leads P P (on_broker (queue.consume consumer 1 (some 500))))
    (consumed : (w : World S Q) (ms : List QueueMessage)
      → (queue.consume consumer 1 (some 500) w.broker).0 ≡ ok ms
      → All Good ms)
    (process_keeps : (m : QueueMessage) (w : World S Q)
      → Good m
      → IsClean store w.db
      → P w
      → P (process store queue risk_handler handle_failure m w).1) where
  -- Between two messages nothing is uncommitted.
  abbrev Ready : World S Q → Type 0
  Ready w = IsClean store w.db × P w

  abbrev process_it : QueueMessage → Action (World S Q) Bool
  process_it = process store queue risk_handler handle_failure

  stop-Keeps : (b : Bool) → Keeps Ready P (pure {W = World S Q} b)
  stop-Keeps b w r = (r.1, λ h. r)

  unless_set-Keeps :
      (go : Action (World S Q) Bool)
      → Keeps Ready P go
      → Keeps Ready P (unless_set store queue risk_handler handle_failure is_set consumer true go)
  unless_set-Keeps go h w r = elim (Bool-cases (is_set w)) [
    | inl e ↦ rw e (stop-Keeps true w r)
    | inr e ↦ rw e (h w r)
  ]

  process-Keeps : (m : QueueMessage) → Good m → Keeps Ready P (process_it m)
  process-Keeps m g w r =
      let p = process_keeps m w g r.0 r.1 in
      (p, λ h. (process-IsClean store queue risk_handler handle_failure m w r.0 h, p))

  process_batch-Keeps :
      (ms : List QueueMessage)
      → All Good ms
      → Keeps Ready P (process_batch store queue risk_handler handle_failure is_set consumer ms)
  unfolding process_batch
  process_batch-Keeps [] g = stop-Keeps false
  process_batch-Keeps (m ∷ ms) g =
      let rest = process_batch store queue risk_handler handle_failure is_set consumer ms in
      bind-Keeps Ready P (λ b. Unit {0}) (process_it m)
        (λ (b : Bool). unless_set store queue risk_handler handle_failure is_set consumer true rest)
        (process-Keeps m g.0) (λ w b e. tt)
        (λ b c. unless_set-Keeps rest (process_batch-Keeps ms g.1))

  consume-Keeps : Keeps Ready P (on_broker {S = S} (queue.consume consumer 1 (some 500)))
  consume-Keeps w r = let p = consume_keeps w r.1 in (p, λ h. (r.0, p))

  otherwise-Keeps :
      (go : Action (World S Q) Bool)
      → Keeps Ready P go
      → (b : Bool)
      → Keeps Ready P (otherwise store queue risk_handler handle_failure is_set consumer go b)
  otherwise-Keeps go h true = stop-Keeps true
  otherwise-Keeps go h false = h

  turn-Keeps :
      (go : Action (World S Q) Bool)
      → Keeps Ready P go
      → Keeps Ready P (turn store queue risk_handler handle_failure is_set consumer go)
  unfolding turn
  turn-Keeps go h =
      let batch = process_batch store queue risk_handler handle_failure is_set consumer in
      let next = otherwise store queue risk_handler handle_failure is_set consumer go in
      bind-Keeps Ready P (All Good) (on_broker (queue.consume consumer 1 (some 500)))
        (λ ms. batch ms >>= next) consume-Keeps (λ w ms e. consumed w ms e)
        (λ ms g.
          bind-Keeps Ready P (λ b. Unit {0}) (batch ms) next (process_batch-Keeps ms g)
            (λ w b e. tt) (λ b c. otherwise-Keeps go h b))

  pub run-Keeps :
      (turns : ℕ)
      → Keeps Ready P (run store queue risk_handler handle_failure is_set consumer turns)
  unfolding run
  run-Keeps zero = stop-Keeps false
  run-Keeps (suc turns) =
      let rest = run store queue risk_handler handle_failure is_set consumer turns in
      unless_set-Keeps (turn store queue risk_handler handle_failure is_set consumer rest)
        (turn-Keeps rest (run-Keeps turns))
