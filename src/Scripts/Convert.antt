-- ===== src/Scripts/Convert.antt =====
-- scripts/prepare_banksim.py: `stable_transaction_id` and `convert_dataset`, its treatment of one row and the counts of its manifest. The fixed fields
-- of the manifest and the writing of the Parquet table are left out.
pub mod Rows
pub mod Agreement
pub mod Canonical
pub mod Small
pub mod Main
pub mod Exit
use Prim.Native.String.{◌++◌ as ◌^^◌}
use fraud_latch.Base.{
  ℕ, ◌+◌, ◌-◌, ◌*◌, ◌≡◌, String, Bool, true, false, ◌&&◌, ◌||◌, Option, none, some, List, [], ◌∷◌,
  ◌++◌, length, str_eq, ltb, not, if◌then◌else◌,
}
use fraud_latch.Base.Int.{ℤ, pos, abs}
use fraud_latch.Base.Text.{str, prefix}
use fraud_latch.Base.Time.{Datetime, seconds}
use fraud_latch.Base.Decimal.{Decimal}
use fraud_latch.Base.Outcome.{Outcome, ok, raised, Error, value, overflow, ◌>>=◌, ◌>>◌}
use fraud_latch.Scripts.Dataset.{
  Row, CsvFile, Amount, Builtins, Values, values_of, list_of, has_empty, is_binary, is_negative,
  below_zero, is_zero, quantize_cents, Skipped, at_line, missing_columns, join,
}
use fraud_latch.Scripts.Validate.{parsed, fail_if, refuse_missing}

-- A canonical row: the fields of a transaction, the metadata as the text of a JSON object.
pub record CanonicalRow : Type 0 where
  pub transaction_id : String
  pub customer_id : String
  pub merchant_id : String
  pub category : String
  pub amount : Decimal
  pub source_step : ℕ
  pub source : String
  pub event_time : Datetime
  pub source_metadata : String

-- `stable_transaction_id`
unfoldable pub stable_transaction_id : Builtins → String → ℕ → Values → String
stable_transaction_id b seed source_row v =
    "banksim-" ^^ prefix 32 (b.sha256_hex (join "|" (seed ∷ str source_row ∷ list_of v)))

-- `EPOCH`, 2026-01-01 in UTC
abbrev pub epoch : Datetime
epoch = record { micros = 63902822400000000; aware = true }

-- `EPOCH + timedelta(days=n)`: 9999-12-31 is 2912442 days later.
abbrev pub event_time_of : ℕ → Outcome Datetime
event_time_of n =
    if ltb 2912442 n
    then raised (record { kind = overflow; message = "date value out of range" })
    else ok (record { micros = epoch.micros + seconds (86400 * n); aware = true })

-- `json.dumps({"dataset": "banksim", "source_row": line_number}, sort_keys=True)`
abbrev pub metadata : ℕ → String
metadata line = "{\"dataset\": \"banksim\", \"source_row\": " ^^ (str line ^^ "}")

-- The variables of the loop.
pub record Converted : Type 0 where
  pub rows : List CanonicalRow
  pub skipped_rows : List Skipped
  pub ids : List String
  pub fraud_count : ℕ

abbrev pub nothing : Converted
nothing = record { rows = []; skipped_rows = []; ids = []; fraud_count = 0 }

abbrev pub seen_in : String → List String → Bool
seen_in id [] = false
seen_in id (x ∷ xs) = str_eq x id || seen_in id xs

-- `source_step < 0 or numeric_amount < 0`
abbrev pub either_negative : ℤ → Amount → Outcome Bool
either_negative step amount = if is_negative step then ok true else below_zero amount

-- The dictionary that is appended.
abbrev pub canonical_row : String → ℕ → Values → ℕ → ℕ → Datetime → CanonicalRow
canonical_row id line v step hundredths event_time = record {
  transaction_id = id;
  customer_id = v.customer;
  merchant_id = v.merchant;
  category = v.category;
  amount = pos (hundredths * 1000000);
  source_step = step;
  source = "banksim";
  event_time = event_time;
  source_metadata = metadata line;
}

-- `ids.add(...)` and `rows.append(...)`
abbrev pub appended : CanonicalRow → Converted → Converted
appended r c = record c { rows = c.rows ++ r ∷ []; ids = r.transaction_id ∷ c.ids }

-- The rest of the loop body for an amount that is not zero.
unfoldable pub add_row : Builtins → String → ℕ → Values → ℕ → Amount → Converted → Outcome Converted
add_row b seed line v step amount c = do
  let id = stable_transaction_id b seed line v
  fail_if (seen_in id c.ids) (at_line line "transaction ID collision")
  hundredths ← quantize_cents amount
  event_time ← event_time_of step
  ok (appended (canonical_row id line v step hundredths event_time) c)

-- `int(step)`, whose error is that of the amount.
abbrev pub parsed_step : Option ℤ → Error → Outcome ℤ
parsed_step none e = raised e
parsed_step (some n) e = ok n

-- The loop body, from the stripped values of the row.
unfoldable pub convert_values : Builtins → String → ℕ → Values → Converted → Outcome Converted
unfolding has_empty add_row
convert_values b seed line v c = do
  fail_if (has_empty v) (at_line line "required source field is empty")
  step ← parsed_step (b.int_of_text v.step) (at_line line "invalid step or amount")
  amount ← parsed (b.decimal_of_text v.amount) (at_line line "invalid step or amount")
  negative ← either_negative step amount
  fail_if negative (at_line line "step and amount must not be negative")
  fail_if (not (is_binary v.fraud)) (at_line line "fraud must be binary 0 or 1")
  let counted = record c { fraud_count = c.fraud_count + (if str_eq v.fraud "1" then 1 else 0) }
  if is_zero amount
      then ok (record counted { skipped_rows = c.skipped_rows ++ line ∷ [] })
      else add_row b seed line v (abs step) amount counted

unfoldable pub convert_rows : Builtins → String → ℕ → List Row → Converted → Outcome Converted
unfolding convert_values
convert_rows b seed line [] c = ok c
convert_rows b seed line (row ∷ rows) c =
    convert_values b seed line (values_of b row) c >>= convert_rows b seed (line + 1) rows

-- The manifest's counts.
pub record Manifest : Type 0 where
  pub seed : String
  pub source_row_count : ℕ
  pub canonical_row_count : ℕ
  pub skipped_row_count : ℕ
  pub skipped_rows : List Skipped
  pub source_fraud_count : ℕ

abbrev pub manifest_of : String → Converted → Manifest
manifest_of seed c = record {
  seed = seed;
  source_row_count = length c.rows + length c.skipped_rows;
  canonical_row_count = length c.rows;
  skipped_row_count = length c.skipped_rows;
  skipped_rows = c.skipped_rows;
  source_fraud_count = c.fraud_count;
}

-- `none` is a path where there is no file.
unfoldable pub convert_dataset :
    Builtins → String → Option CsvFile → Outcome (List CanonicalRow × Manifest)
unfolding convert_rows
convert_dataset b seed none =
    raised (record { kind = value; message = "dataset is missing: run make data-check first" })
convert_dataset b seed (some file) = do
  refuse_missing (missing_columns file)
  c ← convert_rows b seed 2 file.rows nothing
  ok (c.rows, manifest_of seed c)
