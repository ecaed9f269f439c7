-- ===== src/Tests/RetryRecordTests.antt =====
-- A scheduled retry that is read back.
use fraud_latch.Base.{◌≡◌, refl}
use fraud_latch.Base.Int.{pos}
use fraud_latch.Base.Outcome.{ok, raised, value}
use fraud_latch.Queue.Retry.{RetryRecord}
use fraud_latch.Queue.Retry.Records.{
  json_text, json_int, Conversions, retry_record_fields, json_record,
  retry_record_fields-json_record,
}

abbrev conversions : Conversions
conversions = record {
  str_of = λ v. elim v [ json_text s ↦ s | _ ↦ "" ];
  int_of = λ v. elim v [ json_int n ↦ ok n | _ ↦ raised (record { kind = value; message = "" }) ];
  str_of-json_text = λ s. refl;
  int_of-json_int = λ n. refl;
}

abbrev second : RetryRecord
second = record { envelope = "{}"; attempt = 2; error_code = "dependency_timeout" }

retry_record_fields-json_record_example :
    retry_record_fields conversions (json_record conversions second)
    ≡ ok (record { envelope = "{}"; attempt = pos 2; error_code = "dependency_timeout" })
retry_record_fields-json_record_example = retry_record_fields-json_record conversions second
