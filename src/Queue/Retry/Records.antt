-- ===== src/Queue/Retry/Records.antt =====
-- fraudlatch/queue/retry.py: retry_record_fields on the record that schedule_retry stores, read back as JSON.
use fraud_latch.Base.{
  ◌≡◌, String, Bool, true, false, not, ◌||◌, if◌then◌else◌, Option, none, some, [], ◌∷◌, str_eq,
  ◌==◌, arith,
}
use fraud_latch.Base.Int.{ℤ, pos, negsuc}
use fraud_latch.Base.Assoc.{Assoc, lookup}
use fraud_latch.Base.Outcome.{Outcome, ok, raised, raise_if, value, ◌>>=◌, ◌>>◌}
use fraud_latch.Queue.Retry.{RetryRecord}

-- What json.loads gives for a value; `composite` is a list or an object, by whether it is empty.
pub data JsonValue : Type 0 where
  json_null : JsonValue
  json_bool : Bool → JsonValue
  json_int : ℤ → JsonValue
  json_text : String → JsonValue
  composite : Bool → String → JsonValue

-- Python's truth value.
abbrev pub is_truthy : JsonValue → Bool
is_truthy json_null = false
is_truthy (json_bool b) = b
is_truthy (json_int (pos n)) = not (n == 0)
is_truthy (json_int (negsuc n)) = true
is_truthy (json_text s) = not (str_eq s "")
is_truthy (composite is_empty repr) = not is_empty

-- `not record.get(name)`
abbrev pub lacks : String → Assoc JsonValue → Bool
lacks name record_ = elim (lookup name record_) [ none ↦ true | some v ↦ not (is_truthy v) ]

-- `record.get("error_code", "unknown")`
abbrev pub or_unknown : Option JsonValue → JsonValue
or_unknown none = json_text "unknown"
or_unknown (some v) = v

-- The normalised fields. An attempt is any integer.
pub record RetryFields : Type 0 where
  pub envelope : String
  pub attempt : ℤ
  pub error_code : String

-- `str` and `int` of a value; the text of a text is itself, and the integer of an integer too.
pub record Conversions : Type 0 where
  pub str_of : JsonValue → String
  pub int_of : JsonValue → Outcome ℤ
  pub str_of-json_text : (s : String) → str_of (json_text s) ≡ s
  pub int_of-json_int : (n : ℤ) → int_of (json_int n) ≡ ok n

module _ (conversions : Conversions) where
  open conversions use {str_of, int_of, str_of-json_text, int_of-json_int}

  abbrev pub text_at : String → Assoc JsonValue → String
  text_at name record_ = str_of (or_unknown (lookup name record_))

  unfoldable pub retry_record_fields : Assoc JsonValue → Outcome RetryFields
  retry_record_fields record_ = do
    raise_if (lacks "envelope" record_ || lacks "attempt" record_) value "invalid_retry_record"
    attempt ← int_of (or_unknown (lookup "attempt" record_))
    ok (record {
      envelope = text_at "envelope" record_;
      attempt = attempt;
      error_code = text_at "error_code" record_;
    })

  -- The JSON object that `schedule_retry` dumps.
  abbrev pub json_record : RetryRecord → Assoc JsonValue
  json_record r =
      ("envelope", json_text r.envelope)
      ∷ ("attempt", json_int (pos r.attempt))
      ∷ ("error_code", json_text r.error_code)
      ∷ []

  -- The record of a scheduled retry is read back as it was, if its envelope is no empty text and its attempt is not 0, and refused
  -- otherwise.
  pub retry_record_fields-json_record :
      (r : RetryRecord)
      → retry_record_fields (json_record r) ≡ (
          if str_eq r.envelope "" || r.attempt == 0
          then raised (record { kind = value; message = "invalid_retry_record" })
          else ok (record {
            envelope = r.envelope;
            attempt = pos r.attempt;
            error_code = r.error_code;
          }))
  unfolding retry_record_fields lookup
  retry_record_fields-json_record r = ground (
    arith,
    str_of-json_text r.envelope,
    str_of-json_text r.error_code,
    int_of-json_int (pos r.attempt),
  )
