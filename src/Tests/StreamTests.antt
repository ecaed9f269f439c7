-- ===== src/Tests/StreamTests.antt =====
-- The stream adapter over a stream in memory: a message that is read, and an entry that cannot be.
use fraud_latch.Base.{
  ◌≡◌, refl, inr, String, false, none, some, List, [], ◌∷◌, ◌++◌, str_eq, if◌then◌else◌,
}
use fraud_latch.Base.Int.{pos}
use fraud_latch.Base.Assoc.{lookup}
use fraud_latch.Base.Outcome.{ok, succeeded}
use fraud_latch.Contracts.Events.{Codec, text, num, serialize_event, deserialize_event}
use fraud_latch.Queue.Ports.{QueueMessage}
use fraud_latch.External.Streams.{Entry, Streams}
use fraud_latch.Queue.RedisStreams.{
  fields_of, message_of, append_messages, message_list, claim, reclaim_pending, ensure_group,
  consume,
}
use fraud_latch.Queue.RedisStreams.Delivery.{consume_unread, message_of-publish}
use fraud_latch.Tests.Memory.{member, acked_self, acked_ne}
use fraud_latch.Tests.EventTests.{event, codec, event_valid}

pub record Stream : Type 0 where
  pub list : List Entry
  pub acks : List String

-- A stream of which every read returns all entries.
abbrev pub memory_streams : Streams Stream
memory_streams = record {
  entries = λ w. w.list;
  acked = λ w id. member id w.acks;
  is_busygroup = λ e. false;
  xgroup_create = λ w. (ok tt, w);
  xadd = λ f w. (ok "1-0", record w { list = w.list ++ ("1-0", f) ∷ [] });
  xreadgroup = λ consumer n block_ms w. (ok (("s", w.list) ∷ []), w);
  xack = λ id w. (ok tt, record w { acks = id ∷ w.acks });
  xpending_range = λ idle n w. (ok ("1-0" ∷ []), w);
  xclaim = λ consumer idle ids w. (ok w.list, w);
  entries-xgroup_create = λ w. refl;
  entries-xadd = λ f w h. ("1-0", refl);
  entries-xadd_any = λ f w. inr ("1-0", refl);
  acked-xgroup_create = λ w id. refl;
  acked-xreadgroup = λ consumer n block_ms w id. refl;
  acked-xack = λ id w h. acked_self id w.acks;
  acked-xack_ne = λ id other w ne. acked_ne other id w.acks ne;
}

-- A stream with one published event, and one with an entry that is no event after it.
abbrev one_event : Stream
one_event = record { list = ("1-0", fields_of "{e1}") ∷ []; acks = [] }

abbrev with_garbage : Stream
with_garbage = record { list = ("1-0", fields_of "{e1}") ∷ ("2-0", fields_of "?") ∷ []; acks = [] }

-- The codec of the event tests, which also reads the number zero.
abbrev pub number_codec : Codec
number_codec = record codec { int_of_text = λ s. if str_eq s "0" then some (pos 0) else none }

abbrev message : QueueMessage
message = record {
  handle = record { queue = "s"; message_id = "1-0" };
  event = event;
  raw_payload = "{e1}";
  attempts = 1;
}

message_of-publish_example :
    message_of number_codec "s" ("1-0", fields_of (serialize_event number_codec event)) ≡ ok message
unfolding lookup
message_of-publish_example =
    message_of-publish number_codec "s" "1-0" event
      (record {
        fields = ("event_type", text "transaction.received") ∷ ("schema_version", num (pos 1)) ∷ [];
        loads-dump = refl;
        type_field = refl;
        version_field = refl;
        parse-dump = refl;
      })
      event_valid refl

one_message :
    (consume number_codec "s" memory_streams "worker" 1 none one_event).0 ≡ ok (message ∷ [])
unfolding consume ensure_group message_list append_messages
one_message = rw message_of-publish_example

consume_unread_example :
    succeeded (consume number_codec "s" memory_streams "worker" 2 none with_garbage).0 ≡ false
unfolding ensure_group message_of deserialize_event lookup
consume_unread_example =
    consume_unread number_codec "s" memory_streams "worker" 2 none with_garbage
      (("1-0", fields_of "{e1}") ∷ []) [] ("2-0", fields_of "?") refl refl

one_claimed :
    (reclaim_pending number_codec "s" memory_streams "worker" (pos 1000) 100 one_event).0
    ≡ ok (message ∷ [])
unfolding reclaim_pending claim message_list append_messages
one_claimed = rw message_of-publish_example
