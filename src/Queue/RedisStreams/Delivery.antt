-- ===== src/Queue/RedisStreams/Delivery.antt =====
-- What RedisStreamsQueue of fraudlatch/queue/redis.py delivers: the messages that it reads, what one unreadable entry does to a batch, and
-- that it meets the queue interface.
use fraud_latch.Base.{
  ℕ, ◌≡◌, ◌≤◌, inl, inr, ap, sym, ◌∙◌, String, false, Option, none, some, List, [], ◌∷◌, ◌++◌, All,
  All-given, str_eq, eq_refl, arith, Bool-cases,
}
use mathlib.Core.Path.{subst}
use fraud_latch.Base.Int.{ℤ, pos, negsuc}
use fraud_latch.Base.Assoc.{lookup}
use fraud_latch.Base.Outcome.{ok, succeeded}
use fraud_latch.Base.Outcome.{◌>>=◌ as ◌and_then◌}
use fraud_latch.Contracts.Events.{
  EventEnvelope, Codec, serialize_event, deserialize_event, deserialize-serialize, IsReadBack,
  envelope,
}
use fraud_latch.Queue.Ports.{QueueMessage}
use fraud_latch.External.Streams.{Entry, Streams}
use fraud_latch.Queue.RedisStreams.{
  fields_of, at_least_one, at_least_one_of, attempts_of, required, message_of, append_messages,
  message_list, claim, reclaim_pending, ensure_group, consume,
}
use fraud_latch.Worker.Durability.{status-cases}

one-le : (n : ℤ) → 1 ≤ at_least_one n
one-le (pos n) = ground arith
one-le (negsuc n) = ground arith

at_least_one_of-le : (o : Option ℤ) (n : ℕ) → at_least_one_of o ≡ ok n → 1 ≤ n
at_least_one_of-le none n h = absurd (ground (arith, h))
at_least_one_of-le (some m) n h = ground (arith, h, one-le m)

All-append :
    (P : QueueMessage → Type 0) (ms : List QueueMessage) (m : QueueMessage)
    → All P ms
    → P m
    → All P (ms ++ m ∷ [])
All-append P [] m a p = (p, tt)
All-append P (x ∷ ms) m a p = (a.0, All-append P ms m a.1 p)

module _ (codec : Codec) (stream_name : String) where
  -- A message that says where it comes from, whose event is what its text means, at its first attempt or later.
  abbrev pub IsFaithful : QueueMessage → Type 0
  IsFaithful m =
      (m.handle.queue ≡ stream_name)
      × (deserialize_event codec m.raw_payload ≡ ok m.event)
      × (1 ≤ m.attempts)

  attempts_of-le : (o : Option String) (n : ℕ) → attempts_of codec stream_name o ≡ ok n → 1 ≤ n
  unfolding attempts_of
  attempts_of-le none n h = ground (arith, h)
  attempts_of-le (some t) n h = at_least_one_of-le (codec.int_of_text t) n h

  message_of-IsFaithful :
      (e : Entry) (m : QueueMessage) → message_of codec stream_name e ≡ ok m → IsFaithful m
  unfolding message_of
  message_of-IsFaithful (id, fields) m h =
      elim (status-cases (required codec stream_name (lookup "envelope" fields))) [
        | inl (e, eq) ↦ absurd (ground (arith, eq))
        | inr (raw, eq) ↦ elim (status-cases (deserialize_event codec raw)) [
          | inl (e, eq1) ↦ absurd (ground (arith, eq, eq1))
          | inr (event, eq1) ↦
              elim (status-cases (attempts_of codec stream_name (lookup "attempts" fields))) [
                | inl (e, eq2) ↦ absurd (ground (arith, eq, eq1, eq2))
                | inr (n, eq2) ↦
                    ground (arith, eq, eq1, eq2, attempts_of-le (lookup "attempts" fields) n eq2)
              ]
        ]
      ]

  -- An entry that cannot be read makes the batch raise.
  append_messages_unread :
      (ms : List QueueMessage) (before after : List Entry) (bad : Entry)
      → succeeded (message_of codec stream_name bad) ≡ false
      → succeeded (append_messages codec stream_name ms (before ++ bad ∷ after)) ≡ false
  unfolding append_messages
  append_messages_unread ms [] after bad h = ground (arith, h)
  append_messages_unread ms (e ∷ before) after bad h =
      elim (status-cases (message_of codec stream_name e)) [
        | inl (x, eq) ↦ ground (arith, eq)
        | inr (m, eq) ↦ rw eq (append_messages_unread (ms ++ m ∷ []) before after bad h)
      ]

  -- What holds of the message of each entry read holds of every message returned.
  module _ (P : QueueMessage → Type 0) (E : Entry → Type 0)
      (each : (e : Entry) (m : QueueMessage)
        → E e
        → message_of codec stream_name e ≡ ok m
        → P m) where
    append_messages-All :
        (ms : List QueueMessage) (es : List Entry) (out : List QueueMessage)
        → All P ms
        → All E es
        → append_messages codec stream_name ms es ≡ ok out
        → All P out
    unfolding append_messages
    append_messages-All ms [] out a b h = subst (All P) (cc h) a
    append_messages-All ms (e ∷ es) out a b h =
        elim (status-cases (message_of codec stream_name e)) [
          | inl (x, eq) ↦ absurd (ground (arith, eq))
          | inr (m, eq) ↦
              append_messages-All (ms ++ m ∷ []) es out (All-append P ms m a (each e m b.0 eq)) b.1
                (sym (
                    ap (λ o. o and_then λ m. append_messages codec stream_name (ms ++ m ∷ []) es)
                      eq)
                  ∙ h)
        ]

    pub message_list-All :
        (ms : List QueueMessage) (rows : List (String × List Entry)) (out : List QueueMessage)
        → All P ms
        → All (λ row. All E row.1) rows
        → message_list codec stream_name ms rows ≡ ok out
        → All P out
    unfolding message_list
    message_list-All ms [] out a b h = subst (All P) (cc h) a
    message_list-All ms ((name, es) ∷ rows) out a b h =
        elim (Bool-cases (str_eq name stream_name)) [
          | inr f ↦ message_list-All ms rows out a b.1 (ground (arith, f))
          | inl t ↦ elim (status-cases (append_messages codec stream_name ms es)) [
            | inl (x, eq) ↦ absurd (ground (arith, t, eq))
            | inr (ns, eq) ↦
                message_list-All ns rows out (append_messages-All ms es ns a b.0 eq) b.1
                  (ground (arith, t, eq))
          ]
        ]

  message_list-IsFaithful :
      (rows : List (String × List Entry)) (out : List QueueMessage)
      → message_list codec stream_name [] rows ≡ ok out
      → All IsFaithful out
  message_list-IsFaithful rows out h =
      message_list-All IsFaithful (λ e. Unit {0}) (λ e m u. message_of-IsFaithful e m) [] rows out
        tt (All-given rows (λ row. All-given row.1 (λ e. tt))) h

  module _ {W : Type 0} (streams : Streams W) where
    -- Every message that a read returns comes from the adapter's stream, its event is what deserialize_event makes of its text, and
    -- its attempt is at least the first.
    pub consume-IsFaithful :
        (consumer : String) (n : ℕ) (block_ms : Option ℕ) (w : W) (ms : List QueueMessage)
        → (consume codec stream_name streams consumer n block_ms w).0 ≡ ok ms
        → All IsFaithful ms
    unfolding consume
    consume-IsFaithful consumer n block_ms w ms h =
        let w1 = (ensure_group codec stream_name streams w).1 in
        elim (status-cases (streams.xreadgroup consumer n block_ms w1).0) [
          | inl (e, eq) ↦ absurd (ground (arith, eq))
          | inr (rows, eq) ↦ message_list-IsFaithful rows ms (ground (arith, eq))
        ]

    -- If the stream has an entry among those read that cannot be read as a message, the whole read raises.
    pub consume_unread :
        (consumer : String) (n : ℕ) (block_ms : Option ℕ) (w : W) (before after : List Entry)
        (bad : Entry)
        → (streams.xreadgroup consumer n block_ms (ensure_group codec stream_name streams w).1).0
          ≡ ok ((stream_name, before ++ bad ∷ after) ∷ [])
        → succeeded (message_of codec stream_name bad) ≡ false
        → succeeded (consume codec stream_name streams consumer n block_ms w).0 ≡ false
    unfolding consume message_list
    consume_unread consumer n block_ms w before after bad eq h =
        ground (arith, eq, eq_refl stream_name, append_messages_unread [] before after bad h)

    claim-IsFaithful :
        (consumer : String) (idle : ℕ) (ids : List String) (w : W) (ms : List QueueMessage)
        → (claim codec stream_name streams consumer idle ids w).0 ≡ ok ms
        → All IsFaithful ms
    unfolding claim message_list
    claim-IsFaithful consumer idle [] w ms h = message_list-IsFaithful [] ms h
    claim-IsFaithful consumer idle (id ∷ ids) w ms h =
        elim (status-cases (streams.xclaim consumer idle (id ∷ ids) w).0) [
          | inl (e, eq) ↦ absurd (ground (arith, eq))
          | inr (es, eq) ↦ message_list-IsFaithful ((stream_name, es) ∷ []) ms (ground (arith, eq))
        ]

    -- Every message that is claimed again comes from the adapter's stream, its event is what deserialize_event makes of its text, and its
    -- attempt is at least the first.
    pub reclaim_pending-IsFaithful :
        (consumer : String) (idle : ℤ) (count : ℕ) (w : W) (ms : List QueueMessage)
        → (reclaim_pending codec stream_name streams consumer idle count w).0 ≡ ok ms
        → All IsFaithful ms
    unfolding reclaim_pending
    reclaim_pending-IsFaithful consumer (negsuc n) count w ms h = absurd (ground (arith, h))
    reclaim_pending-IsFaithful consumer (pos idle) count w ms h =
        let w1 = (streams.xpending_range idle count w).1 in
        elim (status-cases (streams.xpending_range idle count w).0) [
          | inl (e, eq) ↦ absurd (ground (arith, eq))
          | inr (ids, eq) ↦ claim-IsFaithful consumer idle ids w1 ms (ground (arith, eq))
        ]

  -- A valid event of a supported version is read back from the fields that it is published with, at its first attempt.
  pub message_of-publish :
      (id : String) (e : EventEnvelope)
      → IsReadBack codec e
      → envelope e ≡ ok e
      → codec.int_of_text "0" ≡ some (pos 0)
      → message_of codec stream_name (id, fields_of (serialize_event codec e))
        ≡ ok (record {
          handle = record { queue = stream_name; message_id = id };
          event = e;
          raw_payload = serialize_event codec e;
          attempts = 1;
        })
  unfolding message_of attempts_of lookup
  message_of-publish id e r v zero_text = rw (deserialize-serialize codec e r v, zero_text)
