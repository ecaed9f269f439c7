-- ===== src/Dispatcher/Main.antt =====
-- fraudlatch/dispatcher.py: main, the dispatcher over its Redis queue.
use fraud_latch.Base.{◌≡◌, ◌∙◌, ap, inl, inr, String, true, none, some, List}
use fraud_latch.Base.Assoc.{lookup}
use fraud_latch.Base.Time.{Datetime}
use fraud_latch.Base.Action.{Action, lift, finally, ◌>>=◌, ◌>>◌}
use fraud_latch.Config.{Environment, get_database_url, create_redis_client}
use fraud_latch.Contracts.Events.{Codec, serialize_event}
use fraud_latch.Db.{OutboxEvent, published}
use fraud_latch.External.Streams.{Streams}
use fraud_latch.Queue.Ports.{QueuePort}
use fraud_latch.Queue.RedisStreams.{ensure_group, stream}
use fraud_latch.Queue.RedisStreams.Port.{redis_streams_queue, carries, entries-ensure_group}
use fraud_latch.Worker.Durability.{status-cases}
use fraud_latch.Dispatcher.{Readers, OutboxSession, World, run, envelope_of}
use fraud_latch.Dispatcher.Rounds.{IsDelivered}
use fraud_latch.Dispatcher.Runs.{run-IsDelivered}

module _ (codec : Codec) {S Q : Type 0} (session : OutboxSession S) (streams : Streams Q)
    (aclose : Action Q (Unit {0})) (readers : Readers) where
  abbrev pub queue : QueuePort Q
  queue = redis_streams_queue codec stream streams

  abbrev on_broker : {A : Type 0} → Action Q A → Action (World S Q) A
  on_broker m w = ((m w.broker).0, record w { broker = (m w.broker).1 })

  -- `main`, by the clock's reading at each round until a signal ends the run
  unfoldable pub main :
      (String → String) → Environment → List Datetime → Action (World S Q) (Unit {0})
  main strip environ times = do
    client ← lift (create_redis_client strip environ none)
    on_broker (ensure_group codec stream streams)
    finally (do engine ← lift (get_database_url strip environ); run session queue readers times)
        (on_broker aclose)

  abbrev IsSent : World S Q → Type 0
  IsSent = IsDelivered session queue readers

  -- A call that leaves the stream's entries alone.
  kept-IsSent :
      {A : Type 0} (m : Action Q A) (w : World S Q)
      → streams.entries (m w.broker).1 ≡ streams.entries w.broker
      → IsSent w
      → IsSent (on_broker m w).1
  kept-IsSent m w e h k r f p =
      ap (carries (serialize_event codec (envelope_of readers r))) e ∙ h k r f p

  module _ (leaves : (q : Q) → streams.entries (aclose q).1 ≡ streams.entries q) where
    abbrev block : (String → String) → Environment → List Datetime → Action (World S Q) (Unit {0})
    block strip environ times =
        lift (get_database_url strip environ) >>= λ engine. run session queue readers times

    block-IsSent :
        (strip : String → String) (environ : Environment) (times : List Datetime) (w : World S Q)
        → IsSent w
        → IsSent (block strip environ times w).1
    block-IsSent strip environ times w h = elim (status-cases (get_database_url strip environ)) [
      | inl (e, eq) ↦ rw eq h
      | inr (engine, eq) ↦ rw eq (run-IsDelivered session queue readers times w h)
    ]

    -- A run of the whole dispatcher process, however it ends, keeps it that every committed row that says that it is published has an
    -- entry with its event in the Redis stream, if closing the client leaves the entries alone.
    pub main-IsDelivered :
        (strip : String → String) (environ : Environment) (times : List Datetime) (w : World S Q)
        → IsDelivered session queue readers w
        → (k : String) (r : OutboxEvent)
        → lookup k (session.outbox (main strip environ times w).1.db) ≡ some r
        → r.status ≡ published
        → carries
            (serialize_event codec (envelope_of readers r))
            (streams.entries (main strip environ times w).1.broker)
          ≡ true
    unfolding main
    main-IsDelivered strip environ times w h =
        let w1 = (on_broker (ensure_group codec stream streams) w).1 in
        let joined : IsSent w1 =
          kept-IsSent (ensure_group codec stream streams) w
            (entries-ensure_group codec stream streams w.broker) h in
        elim (status-cases (create_redis_client strip environ none)) [
          | inl (e, eq) ↦ rw eq h
          | inr (client, eq) ↦ elim (status-cases (ensure_group codec stream streams w.broker).0) [
            | inl (e, eq1) ↦ rw (eq, eq1) joined
            | inr (u, eq1) ↦
                rw (eq, eq1)
                  (kept-IsSent aclose (block strip environ times w1).1
                    (leaves (block strip environ times w1).1.broker)
                    (block-IsSent strip environ times w1 joined))
          ]
        ]
