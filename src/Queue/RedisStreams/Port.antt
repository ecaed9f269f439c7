-- ===== src/Queue/RedisStreams/Port.antt =====
-- RedisStreamsQueue of fraudlatch/queue/redis.py as an instance of the queue interface: what a client of a queue may rely on.
use fraud_latch.Base.{
  ℕ, ◌≡◌, ◌≢◌, inl, inr, ap, ◌∙◌, String, Bool, true, false, ◌||◌, Option, none, some, List, [],
  ◌∷◌, ◌++◌, str_eq, eq_refl, arith,
}
use fraud_latch.Base.Assoc.{Assoc, lookup}
use fraud_latch.Base.Outcome.{succeeded}
use fraud_latch.Contracts.Events.{EventEnvelope, Codec, serialize_event}
use fraud_latch.Queue.Ports.{MessageHandle, QueuePort}
use fraud_latch.External.Streams.{Entry, Streams}
use fraud_latch.Queue.RedisStreams.{
  fields_of, validate_handle, ensure_group, publish, consume, ack, nack,
}

-- Whether an entry carries a text as its envelope.
abbrev pub has_text : String → Option String → Bool
has_text text none = false
has_text text (some found) = str_eq found text

unfoldable pub carries : String → List Entry → Bool
carries text [] = false
carries text ((id, fields) ∷ rest) = has_text text (lookup "envelope" fields) || carries text rest

carries_stays :
    (text : String) (es new : List Entry) → carries text es ≡ true → carries text (es ++ new) ≡ true
unfolding carries
carries_stays text [] new h = absurd (ground (arith, h))
carries_stays text ((id, f) ∷ es) new h = ground (arith, h, carries_stays text es new)

carries_new :
    (text id : String) (es : List Entry) → carries text (es ++ (id, fields_of text) ∷ []) ≡ true
unfolding carries lookup
carries_new text id [] = ground (arith, eq_refl text)
carries_new text id ((j, f) ∷ es) = ground (arith, carries_new text id es)

module _ (codec : Codec) (stream_name : String) {W : Type 0} (streams : Streams W) where
  open streams use {
    entries, acked, xgroup_create, xadd, xack, is_busygroup, entries-xgroup_create, entries-xadd,
    entries-xadd_any, acked-xack, acked-xack_ne, acked-xgroup_create, acked-xreadgroup,
  }

  abbrev pub is_sent : W → EventEnvelope → Bool
  is_sent w e = carries (serialize_event codec e) (entries w)

  pub entries-ensure_group :
      (w : W) → entries (ensure_group codec stream_name streams w).1 ≡ entries w
  unfolding ensure_group
  entries-ensure_group w = ground (arith, entries-xgroup_create w)

  is_sent-xadd :
      (e : EventEnvelope) (w : W)
      → succeeded (xadd (fields_of (serialize_event codec e)) w).0 ≡ true
      → is_sent (xadd (fields_of (serialize_event codec e)) w).1 e ≡ true
  is_sent-xadd e w h =
      let (id, same) = entries-xadd (fields_of (serialize_event codec e)) w h in
      ap (carries (serialize_event codec e)) same
      ∙ carries_new (serialize_event codec e) id (entries w)

  is_sent_stays-xadd :
      (f : Assoc String) (x : EventEnvelope) (w : W)
      → is_sent w x ≡ true
      → is_sent (xadd f w).1 x ≡ true
  is_sent_stays-xadd f x w h = elim (entries-xadd_any f w) [
    | inl same ↦ ap (carries (serialize_event codec x)) same ∙ h
    | inr (id, same) ↦
        ap (carries (serialize_event codec x)) same
        ∙ carries_stays (serialize_event codec x) (entries w) ((id, f) ∷ []) h
  ]

  pub is_sent-publish :
      (e : EventEnvelope) (w : W)
      → succeeded (publish codec stream_name streams e w).0 ≡ true
      → is_sent (publish codec stream_name streams e w).1 e ≡ true
  unfolding publish
  is_sent-publish e w h =
      ground (arith, is_sent-xadd e (ensure_group codec stream_name streams w).1)

  pub is_sent_stays-publish :
      (e x : EventEnvelope) (w : W)
      → is_sent w x ≡ true
      → is_sent (publish codec stream_name streams e w).1 x ≡ true
  unfolding publish
  is_sent_stays-publish e x w h =
      let f = fields_of (serialize_event codec e) in
      let w1 = (ensure_group codec stream_name streams w).1 in
      ground (
        arith,
        is_sent_stays-xadd f x w1
            (ap (carries (serialize_event codec x)) (entries-ensure_group w) ∙ h),
        entries-ensure_group w,
        h,
      )

  pub acked-ack :
      (h : MessageHandle) (w : W)
      → succeeded (ack codec stream_name streams h w).0 ≡ true
      → acked (ack codec stream_name streams h w).1 h.message_id ≡ true
  unfolding ack validate_handle
  acked-ack h w r = ground (arith, acked-xack h.message_id w)

  pub acked-ack_ne :
      (h : MessageHandle) (w : W) (id : String)
      → id ≢ h.message_id
      → acked (ack codec stream_name streams h w).1 id ≡ acked w id
  unfolding ack validate_handle
  acked-ack_ne h w id ne = ground (arith, acked-xack_ne h.message_id id w ne)

  pub acked-consume :
      (consumer : String) (n : ℕ) (block_ms : Option ℕ) (w : W) (id : String)
      → acked (consume codec stream_name streams consumer n block_ms w).1 id ≡ acked w id
  unfolding consume ensure_group
  acked-consume consumer n block_ms w id = ground (
    arith,
    acked-xgroup_create w id,
    acked-xreadgroup consumer n block_ms (ensure_group codec stream_name streams w).1 id,
  )

  pub acked-nack :
      (h : MessageHandle) (r : String) (w : W) (id : String)
      → acked (nack codec stream_name streams h r w).1 id ≡ acked w id
  unfolding nack validate_handle
  acked-nack h r w id = ground arith

  -- The adapter as a queue.
  abbrev pub redis_streams_queue : QueuePort W
  redis_streams_queue = record {
    acked = acked;
    sent = is_sent;
    publish = publish codec stream_name streams;
    consume = consume codec stream_name streams;
    ack = ack codec stream_name streams;
    nack = nack codec stream_name streams;
    sent-publish = is_sent-publish;
    sent_stays = is_sent_stays-publish;
    acked-ack = acked-ack;
    acked-ack_ne = acked-ack_ne;
    acked-consume = acked-consume;
    acked-nack = acked-nack;
  }
