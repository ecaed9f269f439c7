-- ===== src/Worker/Main.antt =====
-- fraudlatch/worker.py: main, the worker with its database store, its Redis queue, the velocity windows and the retry handler.
pub mod Safety
use fraud_latch.Base.{ℕ, ◌≡◌, String, Bool, Option, none, some, List}
use fraud_latch.Base.Time.{Datetime}
use fraud_latch.Base.Outcome.{Error}
use fraud_latch.Base.Action.{Action, pure, lift, finally, ◌>>=◌, ◌>>◌}
use fraud_latch.Config.{Environment, get_database_url, create_redis_client}
use fraud_latch.Contracts.Events.{EventEnvelope, Codec}
use fraud_latch.Db.{Session}
use fraud_latch.External.SortedSets.{SortedSets}
use fraud_latch.External.Streams.{Streams}
use fraud_latch.Risk.Models.{RiskDecision}
use fraud_latch.Queue.Ports.{QueuePort}
use fraud_latch.Queue.Retry.{RetryStore, RetryDecision, handle_failure}
use fraud_latch.Queue.RedisStreams.{stream}
use fraud_latch.Queue.RedisStreams.Port.{redis_streams_queue}
use fraud_latch.Worker.{World, on_db, on_broker}
use fraud_latch.Worker.Calculate.{calculate}
use fraud_latch.Worker.DatabaseStore.{database_store}
use fraud_latch.Worker.Loop.{worker_loop, run}

-- The Redis server: what the queue, the velocity windows and the retry handler use of it, the clock of the process, and the closing
-- of the client.
pub record Redis (Q : Type 0) : Type 0 where
  pub streams : Streams Q
  pub sets : SortedSets Q
  pub letters : RetryStore Q
  pub clock : Q → Datetime
  pub aclose : Action Q (Unit {0})

-- The database: a session of it, and what leaving the session's block does.
pub record Database (S : Type 0) : Type 0 where
  pub session : Session S
  pub close : Action S (Unit {0})

module _ (codec : Codec) {S Q : Type 0} (database : Database S) (redis : Redis Q) where
  open redis use {streams, sets, letters, clock, aclose}

  abbrev pub queue : QueuePort Q
  queue = redis_streams_queue codec stream streams

  -- `calculate`, as the worker's handler
  abbrev pub risk_handler : EventEnvelope → Action Q (Option RiskDecision)
  risk_handler event q = (calculate sets (clock q) event >>= λ decision. pure (some decision)) q

  -- `RedisRetryHandler(client).handle_failure`
  abbrev pub retry_handler : EventEnvelope → ℕ → Error → Action Q RetryDecision
  retry_handler event attempt error q = handle_failure letters codec event attempt error (clock q) q

  -- The `try` block, with at most a number of turns of the loop; `is_set` is the stop event, which the signals set.
  unfoldable pub work : (World S Q → Bool) → ℕ → Action (World S Q) (Unit {0})
  work is_set turns =
      finally
        (do
          consumer ← lift (worker_loop "worker-1")
          stopped ←
              run (database_store database.session) queue risk_handler retry_handler is_set consumer
                turns
          pure tt)
        (on_db database.close)

  -- `main`
  unfoldable pub main :
      (String → String) → Environment → (World S Q → Bool) → ℕ → Action (World S Q) (Unit {0})
  unfolding work
  main strip environ is_set turns = do
    client ← lift (create_redis_client strip environ none)
    engine ← lift (get_database_url strip environ)
    finally (work is_set turns) (on_broker aclose)
