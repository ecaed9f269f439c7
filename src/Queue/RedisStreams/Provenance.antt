-- ===== src/Queue/RedisStreams/Provenance.antt =====
-- What the messages of RedisStreamsQueue (fraudlatch/queue/redis.py) say of the stream's entries: an identifier stands for one event.
use fraud_latch.Base.{ℕ, ◌≡◌, sym, ◌∙◌, ap, inl, inr, String, Option, List, [], All, arith}
use fraud_latch.Base.Assoc.{Assoc, lookup}
use fraud_latch.Base.Outcome.{Outcome, ok, raised, ok_inj}
use fraud_latch.Base.Outcome.{◌>>=◌ as ◌and_then◌}
use fraud_latch.Contracts.Events.{EventEnvelope, Codec, deserialize_event}
use fraud_latch.Queue.Ports.{QueueMessage}
use fraud_latch.External.Streams.{Entry, Streams}
use fraud_latch.Queue.RedisStreams.{attempts_of, required, message_of, ensure_group, consume}
use fraud_latch.Queue.RedisStreams.Delivery.{message_list-All}
use fraud_latch.Worker.Durability.{status-cases}

-- The fields that an entry has under its identifier: identifiers are not used again, and entries do not change.
abbrev pub Log : Type 0
Log = String → Assoc String

abbrev pub IsLogged : Log → Entry → Type 0
IsLogged log e = e.1 ≡ log e.0

-- Every entry that a read may return, whatever the state, is one of the log.
abbrev pub ReadsLog : {W : Type 0} → Streams W → Log → Type 0
ReadsLog {W} streams log =
    (consumer : String) (n : ℕ) (block_ms : Option ℕ) (w : W) (rows : List (String × List Entry))
    → (streams.xreadgroup consumer n block_ms w).0 ≡ ok rows
    → All (λ row. All (IsLogged log) row.1) rows

module _ (codec : Codec) (stream_name : String) where
  abbrev pub event_of : Assoc String → Outcome EventEnvelope
  event_of fields = required codec stream_name (lookup "envelope" fields) and_then λ raw.
      deserialize_event codec raw

  -- The transaction that an entry of the log is about.
  abbrev pub subject_of : Assoc String → String
  subject_of fields = elim (event_of fields) [ ok e ↦ e.aggregate_id | raised x ↦ "" ]

  abbrev pub subject : Log → String → String
  subject log id = subject_of (log id)

  abbrev pub IsAbout : Log → QueueMessage → Type 0
  IsAbout log m = subject log m.handle.message_id ≡ m.event.aggregate_id

  abbrev made : String → String → EventEnvelope → ℕ → QueueMessage
  made id raw event n = record {
    handle = record { queue = stream_name; message_id = id };
    event = event;
    raw_payload = raw;
    attempts = n;
  }

  named :
      (id raw : String) (event : EventEnvelope) (n : ℕ) (m : QueueMessage)
      → ok (made id raw event n) ≡ ok m
      → m.handle.message_id ≡ id
  named id raw event n m h = sym (ap (λ x. x.handle.message_id) (ok_inj (made id raw event n) m h))

  told :
      (id raw : String) (event : EventEnvelope) (n : ℕ) (m : QueueMessage)
      → ok (made id raw event n) ≡ ok m
      → event ≡ m.event
  told id raw event n m h = ap (λ x. x.event) (ok_inj (made id raw event n) m h)

  message_of-IsAbout :
      (log : Log) (e : Entry) (m : QueueMessage)
      → IsLogged log e
      → message_of codec stream_name e ≡ ok m
      → IsAbout log m
  unfolding message_of
  message_of-IsAbout log (id, fields) m same h =
      elim (status-cases (required codec stream_name (lookup "envelope" fields))) [
        | inl (e, eq) ↦ absurd (ground (arith, eq))
        | inr (raw, eq) ↦ elim (status-cases (deserialize_event codec raw)) [
          | inl (e, eq1) ↦ absurd (ground (arith, eq, eq1))
          | inr (event, eq1) ↦
              elim (status-cases (attempts_of codec stream_name (lookup "attempts" fields))) [
                | inl (e, eq2) ↦ absurd (ground (arith, eq, eq1, eq2))
                | inr (n, eq2) ↦
                    let found : subject_of fields ≡ event.aggregate_id = ground (arith, eq, eq1) in
                    ap (λ k. subject_of (log k))
                      (named id raw event n m (ground (arith, eq, eq1, eq2, h)))
                    ∙ sym (ap subject_of same)
                    ∙ found
                    ∙ ap (λ e. e.aggregate_id)
                        (told id raw event n m (ground (arith, eq, eq1, eq2, h)))
              ]
        ]
      ]

  module _ {W : Type 0} (streams : Streams W) where
    pub consume-IsAbout :
        (log : Log)
        → ReadsLog streams log
        → (consumer : String) (n : ℕ) (block_ms : Option ℕ) (w : W) (ms : List QueueMessage)
        → (consume codec stream_name streams consumer n block_ms w).0 ≡ ok ms
        → All (IsAbout log) ms
    unfolding consume
    consume-IsAbout log reads consumer n block_ms w ms h =
        let w1 = (ensure_group codec stream_name streams w).1 in
        elim (status-cases (streams.xreadgroup consumer n block_ms w1).0) [
          | inl (e, eq) ↦ absurd (ground (arith, eq))
          | inr (rows, eq) ↦
              message_list-All codec stream_name (IsAbout log) (IsLogged log)
                (message_of-IsAbout log) [] rows ms tt (reads consumer n block_ms w1 rows eq)
                (ground (arith, eq))
        ]
