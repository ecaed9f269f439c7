-- ===== src/Lib.antt =====
-- FraudLatch: a service that takes in payment transactions, assesses their fraud risk with five rules and
-- keeps the results. This library models its Python code under fraudlatch/, scripts/ and alembic/ and proves what makes it correct.
--
-- The parts and how they interact. A POST to /v1/transactions (api/routes.py) stores a transaction and, in the same
-- database transaction, an outbox row. The dispatcher (dispatcher.py) polls the outbox and publishes each row's event
-- to the queue. The worker (worker.py) consumes an event, lets a risk handler decide, stores the decision
-- (api/risk_repository.py) and acknowledges the message; a failure goes to the retry handler (queue/retry.py), which
-- schedules a retry or writes a dead letter. A decision comes from the rules (risk/engine.py) on the transaction, a
-- configuration (risk/config.py) and the context (risk/velocity.py) that Redis sorted sets keep. Beside the service, three
-- scripts validate a data set, convert it to canonical transactions and replay these through the API. Two migrations make the tables.
--
-- Which file models which code (paths below fraudlatch/, but for scripts/ and alembic/):
--   Contracts/Transaction   the fields shared by TransactionIn, TransactionReceivedPayload and RiskTransaction
--   Contracts/Events        contracts/events.py: validation, supported versions, serialize_event, deserialize_event
--   Risk/Models, Config     risk/models.py, risk/config.py
--   Risk/Engine             risk/engine.py: `assess` is RulesV1Engine.assess, `evaluate_rules` its five tests
--   Risk/Velocity           risk/velocity.py: `get_context` is VelocityContextProvider.get_context
--   Risk/AmountDeviation    risk/amount_deviation.py: build_amount_baselines, and `get_context` of the provider. The sums and quotients
--                           of the decimal context are a parameter.
--   Db                      db/models: the rows, and the session that the worker uses
--   Db/Schema, Models, Rows  tables and the types of their columns; the tables that db/models declare; the rows that api/repository.py
--                           and api/risk_repository.py write, column by column
--   Migrations              alembic/versions: InitialSchema is 0001_initial_schema.py, AddOutboxEvents is 0002_add_outbox_events.py,
--                           each as lists of calls of `op`; Env is alembic/env.py
--   Observability           observability.py
--   Config                  db/config.py, and the URL of queue/redis.py
--   Queue/Ports             queue/ports.py
--   Queue/RedisStreams      queue/redis.py: RedisStreamsQueue, in Port an instance of the queue interface
--   Queue/Retry             queue/retry.py: `classify_processing_error`, `decide`, `handle_failure`
--   Api/Repository, Routes  api/repository.py, TransactionIn of api/schemas.py, and ingest_transaction of
--                           api/routes.py with the get_session around it
--   Api/Queries             the three query endpoints of api/routes.py
--   Api/Service             api/app.py, session_scope of db/session.py, the session of a request with its closing, and health, metrics and readiness of api/routes.py
--   Api/RiskRepository      api/risk_repository.py
--   Dispatcher              dispatcher.py: `dispatch_event` is _dispatch_event, `dispatch_once` is
--                           dispatch_once, and `run` is run
--   Worker                  worker.py: `process` is WorkerProcessor.process, over the interface WorkerStore
--   Worker/DatabaseStore    worker.py: DatabaseWorkerStore, an instance of that interface
--   Worker/Loop             worker.py: `run` is WorkerLoop.run
--   Worker/Calculate        worker.py: the `calculate` that main defines, the default risk handler
--   Worker/Main             worker.py: main over Redis and a database; Dispatcher/Main is main of dispatcher.py
--   Worker/Lifecycle        the specification of a transaction's status: its steps and their reachability
--   Scripts/Dataset         what the two scripts below share: the CSV file, its values and numerals
--   Scripts/Validate        scripts/validate_dataset.py: validate_dataset
--   Scripts/Convert         scripts/prepare_banksim.py: stable_transaction_id, convert_dataset
--   Scripts/Replay          scripts/replay_banksim.py: `selected_rows`, and `replay` on the selected rows
--   Scripts/.../Main        the `main` of each script, from its parsed arguments to its exit code
--   External                what is used of redis-py's sorted sets and streams
--   Base                    shared helpers: lists, sorting, integers, decimals, times, exceptions as values, calls as actions
--   Tests                   instances of the interfaces in memory and runs on concrete data
-- The other modules hold the proofs about the module that they stand under.
--
-- How the code is represented. A coroutine is an action: a function from the world around it to what it returns or
-- raises and the world after it, so that what was written before an error stays written. An exception is its class,
-- as far as the code tells classes apart, and its text. Code outside the repository (SQLAlchemy's session, redis-py, the JSON
-- routines of Pydantic, uuid) is a record of operations with the documented behaviour that the code relies on; every call of
-- it may raise. The session of a request lets other clients commit between any two of its calls; the sessions of the worker
-- and the dispatcher do not. A `Decimal` is a whole number of units of 10^-8, a `datetime` a number of microseconds with a flag for its time
-- zone. The integers are unbounded, as Python's are; the 32 bits of an integer column are
-- in Db/Schema.
--
-- The payload of an outbox row is the text of its JSON. What Pydantic makes of a body (`model_dump`) and of such a text, and uuid of
-- an identifier, are parameters: `model_dump` of RequestSession, and the `Readers` of Dispatcher. TransactionIn and
-- TransactionReceivedPayload have the same fields, each with its own test of them (`body_holds`, `payload_holds`).
--
-- The two polling loops end when they are told to, not by themselves. A run of the worker takes its number of turns, and a run of the
-- dispatcher the clock readings of its rounds; their theorems hold for every number and every list. No other function is
-- given a bound: the loops go over lists of a known length (five rules, two keys, a batch of at most a hundred rows, the lines of a
-- file, the three attempts of a replay), and recursion is on the list.
--
-- The scripts read a file as the rows of csv.DictReader. `str.strip`, `int`, `Decimal` on a text and SHA-256 are parameters.
--
-- Not modelled: what SQLAlchemy, Redis, Alembic, httpx, pyarrow, prometheus_client and logging do inside; the parsing of request bodies
-- and command lines; the offline mode of the migrations; and the infrastructure. A worker's handler is a parameter of `process`, as in the code. The 28-digit precision of the decimal context is left out of the score, as sums of five weights stay below
-- it; so are the timestamps that the server fills in.
-- Every error of the model is an `Exception`: a cancellation, which `except Exception` lets through, has no counterpart. The text of
-- UnsupportedEventVersionError is its code alone, without the type and the version. `source_metadata` is its JSON in one canonical
-- form, compared as text, while Python's `==` on dictionaries takes True, 1 and 1.0 for the same. In Scripts/Replay, the error kinds `timeout` and `connection`
-- stand for TimeoutException and NetworkError of httpx.
pub mod Base
pub mod External
pub mod Config
pub mod Observability
pub mod Contracts
pub mod Risk
pub mod Db
pub mod Migrations
pub mod Queue
pub mod Api
pub mod Worker
pub mod Dispatcher
pub mod Scripts
mod Tests
