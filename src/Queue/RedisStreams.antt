-- ===== src/Queue/RedisStreams.antt =====
-- fraudlatch/queue/redis.py: RedisStreamsQueue over the stream commands, an instance of the queue interface.
pub mod Delivery
pub mod Provenance
pub mod Port
use fraud_latch.Base.{
  ℕ, ◌≡◌, ◌≢◌, ◌⊎◌, inl, inr, refl, ap, sym, ◌∙◌, String, Bool, true, false, not, ◌&&◌, ◌||◌,
  Option, none, some, List, [], ◌∷◌, ◌++◌, max, ltb, str_eq, eq_iff, eq_refl, arith, if◌then◌else◌,
  Bool-cases,
}
use fraud_latch.Base.Int.{ℤ, pos, negsuc}
use fraud_latch.Base.Assoc.{Assoc, lookup}
use fraud_latch.Base.Outcome.{Outcome, ok, raised, raise_if, Error, value, key, succeeded}
use fraud_latch.Base.Outcome.{◌>>=◌ as ◌and_then◌}
use fraud_latch.Base.Action.{Action, pure, raise, lift, handled, try_except, ◌>>=◌, ◌>>◌}
use fraud_latch.Contracts.Events.{EventEnvelope, Codec, serialize_event, deserialize_event}
use fraud_latch.Queue.Ports.{MessageHandle, QueueMessage, QueuePort}
use fraud_latch.External.Streams.{Entry, Streams}

-- `RedisStreamsQueue.stream`
abbrev pub stream : String
stream = "fraudlatch:transactions:v1"

-- The fields of a published entry.
abbrev pub fields_of : String → Assoc String
fields_of text = ("envelope", text) ∷ ("attempts", "0") ∷ []

-- `max(1, n)`
abbrev pub at_least_one : ℤ → ℕ
at_least_one (pos n) = max 1 n
at_least_one (negsuc n) = 1

-- `max(1, int(...))`, from what `int` makes of a text
abbrev pub at_least_one_of : Option ℤ → Outcome ℕ
at_least_one_of none = raised (record { kind = value; message = "invalid literal for int()" })
at_least_one_of (some n) = ok (at_least_one n)

module _ (codec : Codec) (stream_name : String) where
  -- `max(1, int(fields.get("attempts", 1)))`
  unfoldable pub attempts_of : Option String → Outcome ℕ
  attempts_of none = ok 1
  attempts_of (some text) = at_least_one_of (codec.int_of_text text)

  -- `fields["envelope"]`
  abbrev pub required : Option String → Outcome String
  required none = raised (record { kind = key; message = "'envelope'" })
  required (some text) = ok text

  -- The message of one entry.
  unfoldable pub message_of : Entry → Outcome QueueMessage
  unfolding attempts_of
  message_of (message_id, fields) = required (lookup "envelope" fields) and_then λ raw_payload.
      deserialize_event codec raw_payload and_then λ event.
      attempts_of (lookup "attempts" fields) and_then λ attempts. ok (record {
        handle = record { queue = stream_name; message_id = message_id };
        event = event;
        raw_payload = raw_payload;
        attempts = attempts;
      })

  -- The two loops of `_message_list`, which append to `messages`.
  unfoldable pub append_messages : List QueueMessage → List Entry → Outcome (List QueueMessage)
  unfolding message_of
  append_messages messages [] = ok messages
  append_messages messages (entry ∷ rest) =
      message_of entry and_then λ m. append_messages (messages ++ m ∷ []) rest

  unfoldable pub message_list :
      List QueueMessage → List (String × List Entry) → Outcome (List QueueMessage)
  unfolding append_messages
  message_list messages [] = ok messages
  message_list messages ((name, found) ∷ rest) =
      (if not (str_eq name stream_name) then ok messages else append_messages messages found)
      and_then λ ms. message_list ms rest

  -- `_validate_handle`
  unfoldable pub validate_handle : MessageHandle → Outcome (Unit {0})
  validate_handle handle =
      raise_if (not (str_eq handle.queue stream_name)) value
        "message handle belongs to a different queue"

  module _ {W : Type 0} (streams : Streams W) where
    open streams use {xgroup_create, xadd, xreadgroup, xack, is_busygroup}

    unfoldable pub ensure_group : Action W (Unit {0})
    ensure_group =
        try_except xgroup_create (λ e. if not (is_busygroup e) then raise e else pure tt) pure

    unfoldable pub publish : EventEnvelope → Action W MessageHandle
    unfolding ensure_group
    publish event = do
      ensure_group
      message_id ← xadd (fields_of (serialize_event codec event))
      pure (record { queue = stream_name; message_id = message_id })

    -- By consumer, count and block time.
    unfoldable pub consume : String → ℕ → Option ℕ → Action W (List QueueMessage)
    unfolding ensure_group message_list
    consume consumer count block_ms = do
      lift (raise_if (str_eq consumer "") value "consumer must not be empty")
      lift (raise_if (ltb count 1) value "count must be positive")
      ensure_group
      rows ← xreadgroup consumer count block_ms
      lift (message_list [] rows)

    unfoldable pub ack : MessageHandle → Action W (Unit {0})
    unfolding validate_handle
    ack handle = do lift (validate_handle handle); xack handle.message_id

    unfoldable pub nack : MessageHandle → String → Action W (Unit {0})
    unfolding validate_handle
    nack handle reason = do
      lift (validate_handle handle)
      lift (raise_if (str_eq reason "") value "reason must not be empty")

    -- The claim of the pending entries found.
    unfoldable pub claim : String → ℕ → List String → Action W (List QueueMessage)
    unfolding message_list
    claim consumer min_idle_ms [] = pure []
    claim consumer min_idle_ms (id ∷ ids) = do
      rows ← streams.xclaim consumer min_idle_ms (id ∷ ids)
      lift (message_list [] ((stream_name, rows) ∷ []))

    -- By consumer, idle time and count.
    unfoldable pub reclaim_pending : String → ℤ → ℕ → Action W (List QueueMessage)
    unfolding claim
    reclaim_pending consumer (negsuc n) count =
        raise (record { kind = value; message = "min_idle_ms must not be negative" })
    reclaim_pending consumer (pos min_idle_ms) count = do
      message_ids ← streams.xpending_range min_idle_ms count
      claim consumer min_idle_ms message_ids
