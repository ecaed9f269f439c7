-- ===== src/Tests/EventTests.antt =====
-- One event through a codec that knows one text.
use fraud_latch.Base.{◌≡◌, refl, true, none, some, [], ◌∷◌, str_eq, if◌then◌else◌}
use fraud_latch.Base.Int.{pos}
use fraud_latch.Base.Assoc.{Assoc, lookup}
use fraud_latch.Base.Outcome.{ok}
use fraud_latch.Contracts.Transaction.{text_within}
use fraud_latch.Contracts.Events.{
  EventEnvelope, envelope, envelope_holds, payload_holds, is_supported, Codec, Json, text, num,
  object, IsReadBack,
}
use fraud_latch.Tests.RiskTests.{sample}

abbrev pub event : EventEnvelope
event = record {
  event_id = "e1";
  event_type = "transaction.received";
  schema_version = pos 1;
  occurred_at = record { micros = 1000000000; aware = true };
  aggregate_id = "t1";
  payload = sample;
}

abbrev fields : Assoc Json
fields = ("event_type", text "transaction.received") ∷ ("schema_version", num (pos 1)) ∷ []

abbrev pub codec : Codec
codec = record {
  loads = λ s. if str_eq s "{e1}" then some (object fields) else none;
  parse = λ s. if str_eq s "{e1}" then some event else none;
  dump = λ e. "{e1}";
  int_of_text = λ s. none;
}

event-IsReadBack : IsReadBack codec event
unfolding lookup
event-IsReadBack = record {
  fields = fields;
  loads-dump = refl;
  type_field = refl;
  version_field = refl;
  parse-dump = refl;
}

pub event_valid : envelope event ≡ ok event
unfolding envelope envelope_holds payload_holds is_supported text_within
event_valid = refl
