-- ===== src/Contracts/Events.antt =====
-- fraudlatch/contracts/events.py: the payload, the envelope and its supported versions, and the two codec
-- functions over Pydantic's and the standard library's JSON routines.
use fraud_latch.Base.{
  ◌==◌, ◌≡◌, String, Bool, true, false, not, ◌&&◌, Option, none, some, str_eq, arith, if◌then◌else◌,
}
use fraud_latch.Base.Int.{ℤ, pos, negsuc, ltb_ℤ, leb_ℤ}
use fraud_latch.Base.Decimal.{has_digits}
use fraud_latch.Base.Assoc.{Assoc, lookup}
use fraud_latch.Base.Time.{Datetime}
use fraud_latch.Base.Outcome.{
  Outcome, ok, raised, raise_if, Error, value, unsupported_version, other, ◌>>◌,
}
use fraud_latch.Contracts.Transaction.{TransactionFields, text_within}

abbrev pub TransactionReceivedPayload : Type 0
TransactionReceivedPayload = TransactionFields

-- The Field constraints and `require_timezone`: an amount has two decimal places (10^6 units) and at most
-- 16 digits before the point (10^24 units).
unfoldable pub payload_holds : TransactionReceivedPayload → Bool
payload_holds t =
    text_within 128 t.transaction_id
    && text_within 128 t.customer_id
    && text_within 128 t.merchant_id
    && text_within 128 t.category
    && ltb_ℤ (pos 0) t.amount
    && has_digits 1000000 1000000000000000000000000 t.amount
    && leb_ℤ (pos 0) t.source_step
    && text_within 64 t.source
    && t.event_time.aware

-- `TransactionReceivedPayload.model_validate(...)`
unfoldable pub validate_payload : TransactionReceivedPayload → Outcome TransactionReceivedPayload
validate_payload t = raise_if (not (payload_holds t)) value "TransactionReceivedPayload" >> ok t

-- `EventEnvelope[TransactionReceivedPayload]`. The UUID is its text.
pub record EventEnvelope : Type 0 where
  pub event_id : String
  pub event_type : String
  pub schema_version : ℤ
  pub occurred_at : Datetime
  pub aggregate_id : String
  pub payload : TransactionReceivedPayload

abbrev is_one : ℤ → Bool
is_one (pos n) = n == 1
is_one (negsuc n) = false

-- `SUPPORTED_VERSIONS` holds version 1 of "transaction.received" alone.
unfoldable pub is_supported : String → ℤ → Bool
is_supported event_type version = str_eq event_type "transaction.received" && is_one version

-- `UnsupportedEventVersionError(...)`
abbrev pub unsupported : Error
unsupported = record { kind = unsupported_version; message = "unsupported_schema_version" }

-- The Field constraints and `require_timezone`.
unfoldable pub envelope_holds : EventEnvelope → Bool
envelope_holds e =
    text_within 128 e.event_type
    && ltb_ℤ (pos 0) e.schema_version
    && e.occurred_at.aware
    && text_within 128 e.aggregate_id
    && payload_holds e.payload

unfoldable pub validate_schema_version : EventEnvelope → Outcome EventEnvelope
validate_schema_version e =
    if is_supported e.event_type e.schema_version then ok e else raised unsupported

-- Pydantic reports a ValueError of a validator, of a subclass too, as its own ValidationError.
abbrev pub as_validation_error {ℓ} : {A : Type ℓ} → Outcome A → Outcome A
as_validation_error (ok a) = ok a
as_validation_error (raised e) = raised (record e { kind = value })

-- `EventEnvelope[TransactionReceivedPayload](...)`
unfoldable pub envelope : EventEnvelope → Outcome EventEnvelope
unfolding validate_schema_version
envelope e =
    raise_if (not (envelope_holds e)) value "EventEnvelope"
    >> as_validation_error (validate_schema_version e)

-- A JSON value as far as `deserialize_event` looks into it. `real` is a float by its integer part, with
-- whether that is all of it; `arr` and `obj` say whether they are empty.
pub data Json : Type 0 where
  null : Json
  bool : Bool → Json
  num : ℤ → Json
  real : ℤ → Bool → Json
  text : String → Json
  arr obj : Bool → Json

-- What `json.loads` returns.
pub data Loaded : Type 0 where
  object : Assoc Json → Loaded
  not_object : Loaded

-- The JSON routines of Pydantic and of the standard library: `loads` is `json.loads` (`none` for a
-- JSONDecodeError), `parse` reads the fields of an envelope from a text without checking their constraints,
-- `dump` is `model_dump_json`, and `int_of_text` is `int` on a text.
pub record Codec : Type 0 where
  pub loads : String → Option Loaded
  pub parse : String → Option EventEnvelope
  pub dump : EventEnvelope → String
  pub int_of_text : String → Option ℤ

-- An envelope that the routines write as a JSON object with its fields, and read back.
pub record IsReadBack (codec : Codec) (e : EventEnvelope) : Type 0 where
  pub fields : Assoc Json
  pub loads-dump : codec.loads (codec.dump e) ≡ some (object fields)
  pub type_field : lookup "event_type" fields ≡ some (text e.event_type)
  pub version_field : lookup "schema_version" fields ≡ some (num e.schema_version)
  pub parse-dump : codec.parse (codec.dump e) ≡ some e

-- `event_type == "transaction.received"`
abbrev is_received : Option Json → Bool
is_received (some (text s)) = str_eq s "transaction.received"
is_received _ = false

-- `schema_version == 1`, which `True` and `1.0` meet too
abbrev is_version_one : Option Json → Bool
is_version_one (some (bool b)) = b
is_version_one (some (num n)) = is_one n
is_version_one (some (real n whole)) = is_one n && whole
is_version_one _ = false

abbrev bad_json : Error
bad_json = record { kind = value; message = "invalid_event_payload" }

module _ (codec : Codec) where
  abbrev pub serialize_event : EventEnvelope → String
  serialize_event = codec.dump

  -- `int(schema_version or 0)`
  abbrev int_or_zero : Option Json → Outcome ℤ
  int_or_zero none = ok (pos 0)
  int_or_zero (some null) = ok (pos 0)
  int_or_zero (some (bool b)) = ok (pos (if b then 1 else 0))
  int_or_zero (some (num n)) = ok n
  int_or_zero (some (real n whole)) = ok n
  int_or_zero (some (text s)) = if str_eq s "" then ok (pos 0) else elim (codec.int_of_text s) [
    | none ↦ raised (record { kind = value; message = "invalid literal for int()" })
    | some n ↦ ok n
  ]
  int_or_zero (some (arr empty)) =
      if empty then ok (pos 0) else raised (record { kind = other; message = "int() argument" })
  int_or_zero (some (obj empty)) =
      if empty then ok (pos 0) else raised (record { kind = other; message = "int() argument" })

  -- `EventEnvelope[TransactionReceivedPayload].model_validate_json(raw_payload)`
  model_validate_json : String → Outcome EventEnvelope
  model_validate_json raw = elim (codec.parse raw) [
    | none ↦ raised (record { kind = value; message = "EventEnvelope" })
    | some e ↦ envelope e
  ]

  abbrev deserialize_fields : String → Assoc Json → Outcome EventEnvelope
  deserialize_fields raw fields =
      let event_type = lookup "event_type" fields in
      let schema_version = lookup "schema_version" fields in
      if is_received event_type && is_version_one schema_version
      then model_validate_json raw
      else (int_or_zero schema_version >> raised unsupported)

  unfoldable pub deserialize_event : String → Outcome EventEnvelope
  unfolding model_validate_json
  deserialize_event raw = elim (codec.loads raw) [
    | none ↦ raised bad_json
    | some not_object ↦ raised bad_json
    | some (object fields) ↦ deserialize_fields raw fields
  ]

  -- A valid envelope of a supported version that is serialized is read back as it was, if the JSON routines read back
  -- what they wrote.
  pub deserialize-serialize :
      (e : EventEnvelope)
      → IsReadBack codec e
      → envelope e ≡ ok e
      → deserialize_event (serialize_event e) ≡ ok e
  unfolding deserialize_event envelope is_supported
  deserialize-serialize e back h = ground arith

  -- Whatever text is read, an envelope that comes back meets its constraints and has a supported version.
  pub deserialize_event_valid :
      (raw : String) {e : EventEnvelope}
      → deserialize_event raw ≡ ok e
      → (envelope_holds e ≡ true) × (is_supported e.event_type e.schema_version ≡ true)
  unfolding deserialize_event envelope
  deserialize_event_valid raw h = ground arith
