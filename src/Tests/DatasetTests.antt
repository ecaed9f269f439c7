-- ===== src/Tests/DatasetTests.antt =====
-- A data set of three rows, one of them with no amount and one a duplicate, through validation and conversion.
use fraud_latch.Base.{
  ◌≡◌, refl, arith, String, true, false, Option, none, some, List, [], ◌∷◌, All, map, length,
  str_eq, if◌then◌else◌,
}
use fraud_latch.Base.Int.{pos}
use fraud_latch.Base.Decimal.{Decimal}
use fraud_latch.Base.Text.{str, prefix}
use fraud_latch.Base.Assoc.{lookup}
use fraud_latch.Base.Outcome.{ok, succeeded}
use fraud_latch.Api.Repository.{TransactionIn, transaction_in}
use fraud_latch.Scripts.Dataset.{
  Row, CsvFile, Amount, finite, Builtins, Values, values_of, required_columns, missing_columns,
  has_empty, join, quantize_cents,
}
use fraud_latch.Scripts.Validate.{
  Report, validate_dataset, validate_rows, validate_values, count_up, same_values, excess,
}
use fraud_latch.Scripts.Validate.Duplicates.{repeats, validate_dataset-repeats}
use fraud_latch.Scripts.Convert.{
  CanonicalRow, Converted, nothing, Manifest, convert_dataset, convert_values, convert_rows,
  add_row, stable_transaction_id,
}
use fraud_latch.Scripts.Convert.Agreement.{convert_dataset-validate_dataset}
use fraud_latch.Scripts.Convert.Canonical.{IsCanonical, HasUniqueIds, convert_dataset-IsCanonical}
use fraud_latch.Scripts.Convert.Small.{convert_values_small}

abbrev pub amounts : String → Option Amount
amounts s =
    if str_eq s "12.5"
    then some (finite (pos 125) 1)
    else if str_eq s "0"
    then some (finite (pos 0) 0)
    else if str_eq s "0.001"
    then some (finite (pos 1) 3)
    else none

-- Texts with no space around them; a digest that is its text.
abbrev pub builtins : Builtins
builtins = record {
  strip = λ s. s;
  int_of_text = λ s. if str_eq s "3" then some (pos 3) else none;
  decimal_of_text = amounts;
  sha256_hex = λ s. s;
}

abbrev pub row : String → String → Row
row amount fraud =
    ("step", some "3")
    ∷ ("customer", some "C1")
    ∷ ("merchant", some "M1")
    ∷ ("category", some "es_food")
    ∷ ("amount", some amount)
    ∷ ("fraud", some fraud)
    ∷ []

abbrev pub file : CsvFile
file = record {
  fieldnames = some required_columns;
  rows = row "12.5" "1" ∷ row "0" "0" ∷ row "12.5" "1" ∷ [];
  sha256 = "d1";
}

abbrev pub report : Report
report = record {
  sha256 = "d1";
  row_count = 3;
  fraud_count = 2;
  valid_row_count = 2;
  skipped_row_count = 1;
  skipped_rows = 3 ∷ [];
  duplicate_rows = 1;
}

pub validated : validate_dataset builtins (some file) ≡ ok report
unfolding validate_dataset validate_rows validate_values has_empty missing_columns values_of lookup
    count_up same_values excess
validated = refl

validate_dataset-repeats_example :
    (3 ≡ length file.rows) × (1 ≡ repeats [] (map (values_of builtins) file.rows))
validate_dataset-repeats_example = validate_dataset-repeats builtins file report validated

abbrev pub canonical : String → Decimal → String → CanonicalRow
canonical id amount place = record {
  transaction_id = id;
  customer_id = "C1";
  merchant_id = "M1";
  category = "es_food";
  amount = amount;
  source_step = 3;
  source = "banksim";
  event_time = record { micros = 63903081600000000; aware = true };
  source_metadata = place;
}

abbrev pub rows : List CanonicalRow
rows =
    canonical "banksim-s|2|3|C1|M1|es_food|12.5|1" (pos 1250000000)
      "{\"dataset\": \"banksim\", \"source_row\": 2}"
    ∷ canonical "banksim-s|4|3|C1|M1|es_food|12.5|1" (pos 1250000000)
        "{\"dataset\": \"banksim\", \"source_row\": 4}"
    ∷ []

abbrev pub manifest : Manifest
manifest = record {
  seed = "s";
  source_row_count = 3;
  canonical_row_count = 2;
  skipped_row_count = 1;
  skipped_rows = 3 ∷ [];
  source_fraud_count = 2;
}

pub converted : convert_dataset builtins "s" (some file) ≡ ok (rows, manifest)
unfolding convert_dataset convert_rows convert_values add_row stable_transaction_id join str prefix
    quantize_cents has_empty missing_columns values_of lookup
converted = refl

convert_dataset-validate_dataset_example :
    (r : Report) × (validate_dataset builtins (some file) ≡ ok r)
    × (r.row_count ≡ 3)
    × (r.valid_row_count ≡ 2)
    × (r.skipped_rows ≡ 3 ∷ [])
    × (r.fraud_count ≡ 2)
    × (length rows ≡ 2)
convert_dataset-validate_dataset_example =
    convert_dataset-validate_dataset builtins "s" file rows manifest converted

convert_dataset-IsCanonical_example : HasUniqueIds rows × All IsCanonical rows
convert_dataset-IsCanonical_example =
    convert_dataset-IsCanonical builtins "s" file rows manifest converted

-- A row of a tenth of a cent.
abbrev tiny : Values
tiny = record {
  step = "3";
  customer = "C1";
  merchant = "M1";
  category = "es_food";
  amount = "0.001";
  fraud = "0";
}

abbrev after_tiny : Converted
after_tiny = record {
  rows =
      canonical "banksim-s|2|3|C1|M1|es_food|0.001|0" (pos 0)
        "{\"dataset\": \"banksim\", \"source_row\": 2}"
      ∷ [];
  skipped_rows = [];
  ids = "banksim-s|2|3|C1|M1|es_food|0.001|0" ∷ [];
  fraud_count = 0;
}

tiny_converted : convert_values builtins "s" 2 tiny nothing ≡ ok after_tiny
unfolding convert_values add_row stable_transaction_id join str prefix quantize_cents has_empty
    values_of lookup
tiny_converted = refl

convert_values_small_example :
    (r : CanonicalRow) × (after_tiny.rows ≡ r ∷ [])
    × (r.amount ≡ pos 0)
    × ((t : TransactionIn) → t.amount ≡ r.amount → succeeded (transaction_in t) ≡ false)
convert_values_small_example =
    convert_values_small builtins "s" 2 tiny nothing after_tiny 1 3 tiny_converted refl
      (omega arith) (omega arith) (omega arith)
