-- ===== src/Tests/MainTests.antt =====
-- The whole worker and dispatcher processes over one Redis and one database in memory.
use fraud_latch.Base.{
  ◌≡◌, refl, inr, arith, String, true, false, none, some, List, [], ◌∷◌, ◌++◌, All, str_eq,
  if◌then◌else◌,
}
use mathlib.Core.Path.{subst}
use fraud_latch.Base.Int.{◌+ℤ◌}
use fraud_latch.Base.Time.{subtract}
use fraud_latch.Base.Assoc.{lookup, insert}
use fraud_latch.Base.Outcome.{ok, ok_inj}
use fraud_latch.Base.Action.{Action, for_each}
use fraud_latch.Config.{Environment, get_database_url, get_redis_url, create_redis_client}
use fraud_latch.Contracts.Transaction.{text_within}
use fraud_latch.Contracts.Events.{
  validate_payload, payload_holds, deserialize_event, serialize_event, envelope, envelope_holds,
  is_supported,
}
use fraud_latch.Db.{completed, apply, apply_all, OutboxEvent, published}
use fraud_latch.External.Streams.{Entry, Streams}
use fraud_latch.External.SortedSets.{SortedSets, highest}
use fraud_latch.Risk.Models.{
  validate_risk_transaction, risk_transaction_holds, risk_reason, risk_decision,
}
use fraud_latch.Risk.Engine.{assess, rule, high_amount_fires, deviates, category_weight, sum_from}
use fraud_latch.Risk.Velocity.{get_context, validate_event_time, touch, latest_time}
use fraud_latch.Queue.Retry.{RetryStore}
use fraud_latch.Queue.RedisStreams.{
  stream, fields_of, message_of, append_messages, message_list, ensure_group, publish, consume, ack,
  validate_handle,
}
use fraud_latch.Queue.RedisStreams.Port.{carries}
use fraud_latch.Queue.RedisStreams.Provenance.{Log, ReadsLog}
use fraud_latch.Api.RiskRepository.{with_result, persist_risk_result}
use fraud_latch.Worker.{World, persist, process}
use fraud_latch.Worker.Calculate.{calculate}
use fraud_latch.Worker.DatabaseStore.{
  database_store, transaction_exists, assessment_status, mark_processing, persist_decision, marked,
  at,
}
use fraud_latch.Worker.Loop.{run}
use fraud_latch.Base.Sorting.{order_by, insert_by}
use fraud_latch.Dispatcher.{
  dispatch_once, dispatch_event, dispatch_rows, publish_row, settle, mark_published, is_due,
  write_rows, envelope_of,
}
use fraud_latch.Dispatcher
use fraud_latch.Dispatcher.Main as DispatcherMain
use fraud_latch.Tests.DispatcherTests.{memory_outbox, Outbox, row, any_readers}
use fraud_latch.Worker.Main.{Redis, Database, main}
use fraud_latch.Worker.Main.Safety.{IsApart, main-acked}
use fraud_latch.Tests.Memory.{
  Store, memory_session, memory_sets, Sets, no_sets, memory_letters, Letters, no_letters, member,
  acked_self, acked_ne,
}
use fraud_latch.Tests.StreamTests.{number_codec, Stream, memory_streams}
use fraud_latch.Tests.WorkerTests.{tables}

-- A Redis server: the acknowledgements, the sorted sets and the letters. Every read of the stream returns its one entry.
record Server : Type 0 where
  pub list : List Entry
  pub acks : List String
  pub windows : Sets
  pub letters : Letters

abbrev on_windows : {A : Type 0} → Action Sets A → Action Server A
on_windows m w = ((m w.windows).0, record w { windows = (m w.windows).1 })

abbrev on_letters : {A : Type 0} → Action Letters A → Action Server A
on_letters m w = ((m w.letters).0, record w { letters = (m w.letters).1 })

abbrev only : List Entry
only = ("1-0", fields_of "{e1}") ∷ []

abbrev server_streams : Streams Server
server_streams = record {
  entries = λ w. w.list;
  acked = λ w id. member id w.acks;
  is_busygroup = λ e. false;
  xgroup_create = λ w. (ok tt, w);
  xadd = λ f w. (ok "2-0", record w { list = w.list ++ ("2-0", f) ∷ [] });
  xreadgroup = λ consumer n block_ms w. (ok ((stream, only) ∷ []), w);
  xack = λ id w. (ok tt, record w { acks = id ∷ w.acks });
  xpending_range = λ idle n w. (ok [], w);
  xclaim = λ consumer idle ids w. (ok only, w);
  entries-xgroup_create = λ w. refl;
  entries-xadd = λ f w h. ("2-0", refl);
  entries-xadd_any = λ f w. inr ("2-0", refl);
  acked-xgroup_create = λ w id. refl;
  acked-xreadgroup = λ consumer n block_ms w id. refl;
  acked-xack = λ id w h. acked_self id w.acks;
  acked-xack_ne = λ id other w ne. acked_ne other id w.acks ne;
}

abbrev sets : SortedSets Server
sets = record {
  entries = λ w. memory_sets.entries w.windows;
  zremrangebyscore = λ k bound. on_windows (memory_sets.zremrangebyscore k bound);
  zadd = λ k m x. on_windows (memory_sets.zadd k m x);
  expire = λ k n. on_windows (memory_sets.expire k n);
  zcount = λ k lo hi. on_windows (memory_sets.zcount k lo hi);
  zrange_last = λ k. on_windows (memory_sets.zrange_last k);
  distinct = λ w. memory_sets.distinct w.windows;
  entries-zremrangebyscore = λ k bound w. memory_sets.entries-zremrangebyscore k bound w.windows;
  entries-zadd = λ k m x w. memory_sets.entries-zadd k m x w.windows;
  entries-expire = λ k n w. memory_sets.entries-expire k n w.windows;
  zcount-eq-count = λ k lo hi n w. memory_sets.zcount-eq-count k lo hi n w.windows;
  entries-zcount = λ k lo hi w. memory_sets.entries-zcount k lo hi w.windows;
  zrange_last-eq-highest = λ k o w. memory_sets.zrange_last-eq-highest k o w.windows;
  entries-zrange_last = λ k w. memory_sets.entries-zrange_last k w.windows;
}

abbrev letters : RetryStore Server
letters = record {
  scheduled = λ w. memory_letters.scheduled w.letters;
  dead = λ w. memory_letters.dead w.letters;
  zadd = λ r due. on_letters (memory_letters.zadd r due);
  xadd = λ d. on_letters (memory_letters.xadd d);
  scheduled-zadd = λ r due w. memory_letters.scheduled-zadd r due w.letters;
  dead-zadd = λ r due w. refl;
  dead-xadd = λ d w h. refl;
  scheduled-xadd = λ d w r. refl;
}

abbrev redis : Redis Server
redis = record {
  streams = server_streams;
  sets = sets;
  letters = letters;
  clock = λ w. record { micros = 2000000000; aware = true };
  aclose = λ w. (ok tt, w);
}

apart : IsApart redis
apart = record {
  of_zremrangebyscore = λ k bound q id. refl;
  of_zadd = λ k m x q id. refl;
  of_expire = λ k n q id. refl;
  of_zcount = λ k lo hi q id. refl;
  of_zrange_last = λ k q id. refl;
  of_retry_zadd = λ r due q id. refl;
  of_xadd = λ d q id. refl;
  of_aclose = λ q id. refl;
}

abbrev database : Database Store
database = record { session = memory_session; close = λ s. (ok tt, s) }

abbrev log : Log
log id = fields_of "{e1}"

reads : ReadsLog server_streams log
reads consumer n block_ms w rows h =
    subst (All (λ row. All (λ e. e.1 ≡ log e.0) row.1)) (ok_inj ((stream, only) ∷ []) rows h)
      ((refl, tt), tt)

abbrev start : World Store Server
start = record {
  db = record { visible = tables; committed = tables };
  broker = record { list = []; acks = []; windows = no_sets; letters = no_letters };
}

abbrev environ : Environment
environ name =
    if str_eq name "REDIS_URL"
    then some "redis://localhost:6379/0"
    else if str_eq name "DATABASE_URL"
    then some "postgresql+asyncpg://db/fraudlatch"
    else none

abbrev finished : World Store Server
finished = (main number_codec database redis (λ s. s) environ (λ w. false) 1 start).1

acknowledged : member "1-0" finished.broker.acks ≡ true
unfolding main create_redis_client get_redis_url get_database_url run process database_store
    transaction_exists assessment_status mark_processing persist_decision marked persist
    persist_risk_result with_result apply_all apply lookup insert consume ensure_group message_of
    append_messages message_list ack validate_handle deserialize_event calculate validate_payload
    payload_holds text_within validate_risk_transaction risk_transaction_holds get_context
    validate_event_time subtract for_each touch latest_time highest assess rule high_amount_fires
    deviates category_weight sum_from risk_reason risk_decision ◌+ℤ◌ envelope envelope_holds
    is_supported
acknowledged = refl

main-acked_example : at memory_session "t1" finished.db.committed ≡ some completed
unfolding deserialize_event lookup envelope envelope_holds text_within payload_holds is_supported
main-acked_example =
    main-acked number_codec database redis apart (λ s. refl) log reads (λ s. s) environ (λ w. false)
      1 start refl (λ m d. absurd (ground (arith, d))) "1-0" acknowledged

-- An outbox of one row that waits, and an empty stream.
abbrev waiting_row : Dispatcher.World Outbox Stream
waiting_row = record {
  db = record { table = ("e1", row) ∷ []; free = row ∷ [] };
  broker = record { list = []; acks = [] };
  metrics = [];
}

nothing_published :
    (k : String) (r : OutboxEvent)
    → lookup k waiting_row.db.table ≡ some r
    → r.status ≡ published
    → carries (serialize_event number_codec (envelope_of any_readers r)) [] ≡ true
unfolding lookup
nothing_published k r e p = ground (arith, e, p)

abbrev dispatched : Dispatcher.World Outbox Stream
dispatched =
    (DispatcherMain.main number_codec memory_outbox memory_streams (λ q. (ok tt, q)) any_readers
      (λ s. s) environ (record { micros = 2000000000; aware = true } ∷ []) waiting_row).1

abbrev sent_row : OutboxEvent
sent_row = record row {
  status = published;
  attempts = 1;
  published_at = some (record { micros = 2000000000; aware = true });
}

written : lookup "e1" dispatched.db.table ≡ some sent_row
unfolding DispatcherMain.main create_redis_client get_redis_url get_database_url ensure_group lookup
    Dispatcher.run write_rows dispatch_rows order_by is_due insert_by insert validate_payload
    payload_holds text_within envelope envelope_holds is_supported publish
written = refl

main-IsDelivered_example :
    carries (serialize_event number_codec (envelope_of any_readers sent_row)) dispatched.broker.list
    ≡ true
main-IsDelivered_example =
    DispatcherMain.main-IsDelivered number_codec memory_outbox memory_streams (λ q. (ok tt, q))
      any_readers (λ q. refl) (λ s. s) environ (record { micros = 2000000000; aware = true } ∷ [])
      waiting_row nothing_published "e1" sent_row written refl
