-- ===== src/Worker/Main/Safety.antt =====
-- What the whole worker process (main of fraudlatch/worker.py) guarantees of the messages that it acknowledges in Redis.
use fraud_latch.Base.{
  ℕ, ◌≡◌, ◌≢◌, refl, sym, ◌∙◌, ap, String, Bool, true, false, Option, none, some, List, [], ◌∷◌,
  inl, inr, arith, if◌then◌else◌,
}
use mathlib.Core.Path.{subst}
use fraud_latch.Base.Time.{Datetime}
use fraud_latch.Base.Outcome.{Outcome, ok, raised, Error}
use fraud_latch.Base.Action.{Action, pure, lift, continue, ◌>>=◌, for_each}
use fraud_latch.Config.{Environment, get_database_url, create_redis_client}
use fraud_latch.Contracts.Events.{EventEnvelope, Codec}
use fraud_latch.Db.{Status, completed}
use fraud_latch.Risk.Models.{RiskTransaction}
use fraud_latch.Risk.Velocity.{Provider, get_context, touch, latest_time}
use fraud_latch.Queue.Retry.{RetryRecord, DeadLetter, handle_failure}
use fraud_latch.Queue.RedisStreams.Provenance.{Log, ReadsLog, subject, consume-IsAbout}
use fraud_latch.Worker.{World}
use fraud_latch.Worker.Durability.{status-cases}
use fraud_latch.Worker.Calculate.{calculate}
use fraud_latch.Worker.DatabaseStore.{database_store, at}
use fraud_latch.Worker.Loop.{run}
use fraud_latch.Worker.Loop.Safety.{run-acked}
use fraud_latch.Queue.RedisStreams.{stream}
use fraud_latch.Worker.Main.{Redis, Database, queue, risk_handler, retry_handler, work, main}

-- The acknowledgements of the stream's group stand under keys of their own: the commands on the velocity windows, on the retry set and on the
-- dead-letter stream, and the closing of the client, leave them alone.
pub record IsApart {Q : Type 0} (redis : Redis Q) : Type 0 where
  pub of_zremrangebyscore :
      (k : String) (bound : ℕ) (q : Q) (id : String)
      → redis.streams.acked (redis.sets.zremrangebyscore k bound q).1 id ≡ redis.streams.acked q id
  pub of_zadd :
      (k m : String) (x : ℕ) (q : Q) (id : String)
      → redis.streams.acked (redis.sets.zadd k m x q).1 id ≡ redis.streams.acked q id
  pub of_expire :
      (k : String) (n : ℕ) (q : Q) (id : String)
      → redis.streams.acked (redis.sets.expire k n q).1 id ≡ redis.streams.acked q id
  pub of_zcount :
      (k : String) (lo hi : ℕ) (q : Q) (id : String)
      → redis.streams.acked (redis.sets.zcount k lo hi q).1 id ≡ redis.streams.acked q id
  pub of_zrange_last :
      (k : String) (q : Q) (id : String)
      → redis.streams.acked (redis.sets.zrange_last k q).1 id ≡ redis.streams.acked q id
  pub of_retry_zadd :
      (r : RetryRecord) (due : ℕ) (q : Q) (id : String)
      → redis.streams.acked (redis.letters.zadd r due q).1 id ≡ redis.streams.acked q id
  pub of_xadd :
      (d : DeadLetter) (q : Q) (id : String)
      → redis.streams.acked (redis.letters.xadd d q).1 id ≡ redis.streams.acked q id
  pub of_aclose :
      (q : Q) (id : String) → redis.streams.acked (redis.aclose q).1 id ≡ redis.streams.acked q id

module _ (codec : Codec) {S Q : Type 0} (database : Database S) (redis : Redis Q)
    (apart : IsApart redis) where
  open redis use {streams, sets, letters, clock, aclose}
  open streams use {acked}
  open apart use {
    of_zremrangebyscore, of_zadd, of_expire, of_zcount, of_zrange_last, of_retry_zadd, of_xadd,
    of_aclose,
  }

  -- A call that acknowledges nothing.
  record Quiet {A : Type 0} (m : Action Q A) : Type 0 where
    keeps : (q : Q) (id : String) → acked (m q).1 id ≡ acked q id

  continue-Quiet :
      {A B : Type 0} (o : Outcome A) (f : A → Action Q B)
      → ((a : A) → Quiet (f a))
      → (q : Q) (id : String) → acked (continue o f q).1 id ≡ acked q id
  continue-Quiet (ok a) f h q id = (h a).keeps q id
  continue-Quiet (raised e) f h q id = refl

  bind-Quiet :
      {A B : Type 0} {m : Action Q A} {f : A → Action Q B}
      → Quiet m
      → ((a : A) → Quiet (f a))
      → Quiet (m >>= f)
  bind-Quiet {m} {f} hm hf = record {
    keeps = λ q id. continue-Quiet (m q).0 f hf (m q).1 id ∙ hm.keeps q id;
  }

  lift-Quiet : {A : Type 0} (o : Outcome A) → Quiet (lift o)
  lift-Quiet o = record { keeps = λ q id. refl }

  zremrangebyscore-Quiet : (k : String) (bound : ℕ) → Quiet (sets.zremrangebyscore k bound)
  zremrangebyscore-Quiet k bound = record { keeps = of_zremrangebyscore k bound }

  zadd-Quiet : (k m : String) (x : ℕ) → Quiet (sets.zadd k m x)
  zadd-Quiet k m x = record { keeps = of_zadd k m x }

  expire-Quiet : (k : String) (n : ℕ) → Quiet (sets.expire k n)
  expire-Quiet k n = record { keeps = of_expire k n }

  zcount-Quiet : (k : String) (lo hi : ℕ) → Quiet (sets.zcount k lo hi)
  zcount-Quiet k lo hi = record { keeps = of_zcount k lo hi }

  zrange_last-Quiet : (k : String) → Quiet (sets.zrange_last k)
  zrange_last-Quiet k = record { keeps = of_zrange_last k }

  touch-Quiet :
      (ttl : ℕ) (id : String) (score cutoff : ℕ) (key : String)
      → Quiet (touch sets ttl id score cutoff key)
  unfolding touch
  touch-Quiet ttl id score cutoff key =
      search (bind-Quiet, zremrangebyscore-Quiet, zadd-Quiet, expire-Quiet)

  touch_all-Quiet :
      (ttl : ℕ) (id : String) (score cutoff : ℕ) (keys : List String)
      → Quiet (for_each (touch sets ttl id score cutoff) keys)
  unfolding for_each
  touch_all-Quiet ttl id score cutoff [] = lift-Quiet (ok tt)
  touch_all-Quiet ttl id score cutoff (key ∷ keys) =
      bind-Quiet {m = touch sets ttl id score cutoff key}
        {f = λ u. for_each (touch sets ttl id score cutoff) keys}
        (touch-Quiet ttl id score cutoff key) (λ u. touch_all-Quiet ttl id score cutoff keys)

  latest_time-Quiet : (key : String) → Quiet (latest_time sets key)
  unfolding latest_time
  latest_time-Quiet key = search (bind-Quiet, zrange_last-Quiet, lift-Quiet)

  get_context-Quiet :
      (self : Provider) (t : RiskTransaction) (now : Datetime) → Quiet (get_context sets self t now)
  unfolding get_context
  get_context-Quiet self t now =
      search (bind-Quiet, lift-Quiet, touch_all-Quiet, zcount-Quiet, latest_time-Quiet) depth 12

  calculate-Quiet : (now : Datetime) (e : EventEnvelope) → Quiet (calculate sets now e)
  unfolding calculate
  calculate-Quiet now e = search (bind-Quiet, lift-Quiet, get_context-Quiet)

  decides-Quiet :
      (now : Datetime) (e : EventEnvelope) → Quiet (calculate sets now e >>= λ d. pure (some d))
  decides-Quiet now e = search (bind-Quiet, lift-Quiet, calculate-Quiet)

  zadd_retry-Quiet : (r : RetryRecord) (due : ℕ) → Quiet (letters.zadd r due)
  zadd_retry-Quiet r due = record { keeps = of_retry_zadd r due }

  xadd-Quiet : (d : DeadLetter) → Quiet (letters.xadd d)
  xadd-Quiet d = record { keeps = of_xadd d }

  choice-Quiet :
      {A : Type 0} (b : Bool) {m k : Action Q A} → Quiet m → Quiet k → Quiet (if b then m else k)
  choice-Quiet true hm hk = hm
  choice-Quiet false hm hk = hk

  handle_failure-Quiet :
      (e : EventEnvelope) (n : ℕ) (x : Error) (now : Datetime)
      → Quiet (handle_failure letters codec e n x now)
  unfolding handle_failure
  handle_failure-Quiet e n x now =
      search (bind-Quiet, lift-Quiet, choice-Quiet, zadd_retry-Quiet, xadd-Quiet) depth 12

  always_decides : (e : EventEnvelope) (q : Q) → (risk_handler codec database redis e q).0 ≢ ok none
  always_decides e q = elim (status-cases (calculate sets (clock q) e q).0) [
    | inl (x, eq) ↦ λ h. ground (arith, eq, h)
    | inr (d, eq) ↦ λ h. ground (arith, eq, h)
  ]

  after_pure : {A : Type 0} (o : Outcome A) (w : World S Q) → (continue o (λ a. pure tt) w).1 ≡ w
  after_pure (ok a) w = refl
  after_pure (raised e) w = refl

  -- `log` holds the entries of the stream.
  module _
      (leaves : (s : S)
        → database.session.committed (database.close s).1 ≡ database.session.committed s)
      (log : Log) (reads : ReadsLog streams log) where
    abbrev status : String → World S Q → Option Status
    status m w = at database.session (subject codec stream log m) (database.session.committed w.db)

    abbrev IsDone : String → World S Q → Type 0
    IsDone m w = acked w.broker m ≡ true → status m w ≡ some completed

    run-IsDone :
        (is_set : World S Q → Bool) (turns : ℕ) (w : World S Q)
        → database.session.visible w.db ≡ database.session.committed w.db
        → ((m : String) → IsDone m w)
        → (m : String)
        → IsDone m
            (run
              (database_store database.session)
              (queue codec database redis)
              (risk_handler codec database redis)
              (retry_handler codec database redis)
              is_set
              "worker-1"
              turns
              w).1
    unfolding database_store
    run-IsDone is_set turns w clean h m =
        run-acked (database_store database.session) (queue codec database redis)
          (risk_handler codec database redis) (retry_handler codec database redis) is_set "worker-1"
          always_decides (λ e q. (decides-Quiet (clock q) e).keeps q)
          (λ e n x q. (handle_failure-Quiet e n x (clock q)).keeps q) (subject codec stream log)
          (λ v. consume-IsAbout codec stream streams log reads "worker-1" 1 (some 500) v.broker) w
          (λ j. ap (at database.session j) clean) h turns m

    work-IsDone :
        (is_set : World S Q → Bool) (turns : ℕ) (w : World S Q)
        → database.session.visible w.db ≡ database.session.committed w.db
        → ((m : String) → IsDone m w)
        → (m : String) → IsDone m (work codec database redis is_set turns w).1
    unfolding work
    work-IsDone is_set turns w clean h m =
        let loop =
          run (database_store database.session) (queue codec database redis)
            (risk_handler codec database redis) (retry_handler codec database redis) is_set
            "worker-1" turns in
        let v = (loop >>= λ stopped. pure {W = World S Q} (tt {0})) w in
        let done : IsDone m v.1 =
          subst (IsDone m) (sym (after_pure (loop w).0 (loop w).1))
            (run-IsDone is_set turns w clean h m) in
        λ a. ap (at database.session (subject codec stream log m)) (leaves v.1.db) ∙ done a

    -- However the worker process ends, from a session with nothing uncommitted: if before it every acknowledged message has a durably
    -- completed transaction, so it is after it, where the other Redis commands and closing leave acknowledgements alone, leaving the
    -- session leaves what is committed, and `log` holds under each identifier the fields that every read returns for it.
    pub main-acked :
        (strip : String → String) (environ : Environment) (is_set : World S Q → Bool) (turns : ℕ)
        (w : World S Q)
        → database.session.visible w.db ≡ database.session.committed w.db
        → ((m : String) → acked w.broker m ≡ true → status m w ≡ some completed)
        → (m : String)
        → acked (main codec database redis strip environ is_set turns w).1.broker m ≡ true
        → status m (main codec database redis strip environ is_set turns w).1 ≡ some completed
    unfolding main
    main-acked strip environ is_set turns w clean h m =
        elim (status-cases (create_redis_client strip environ none)) [
          | inl (e, eq) ↦ rw eq (h m)
          | inr (client, eq) ↦ elim (status-cases (get_database_url strip environ)) [
            | inl (e, eq1) ↦ rw (eq, eq1) (h m)
            | inr (engine, eq1) ↦
                rw (eq, eq1)
                  (λ a.
                    work-IsDone is_set turns w clean h m
                      (sym (of_aclose (work codec database redis is_set turns w).1.broker m) ∙ a))
          ]
        ]
